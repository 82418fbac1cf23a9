-- ===== src/Transport/Calls.antt =====
-- client.rs: the calls of a channel do not disturb one another, and which call is cancelled remotely.
use ice_rpc.Common.{
  ◌≡◌, ◌≢◌, refl, ap, ◌∙◌, Bool, false, not, ◌||◌, ◌&&◌, List, [], ◌∷◌, ◌++◌, arith, if◌then◌else◌,
  append-nil, Bool-cases, inl, inr,
}
use ice_rpc.Wire.Kind.{EventKind, as_u8, from_u8}
use ice_rpc.Wire.Event.{WireEvent, is_terminal}
use ice_rpc.Transport.Codec.{Bytes, Codec, IsRoundTrip, IsTotal}
use ice_rpc.Transport.Responses.{framed}
use ice_rpc.Transport.Client.{
  ConsumerPorts, contains, dispatch_response, drop_stream, contains-remove, contains-remove_ne,
}
use ice_rpc.Transport.EndToEnd.{
  frames, deliver, deliver_unregistered, IsAwaited, dispatch_frame, framed-IsTotal,
}

module _ {ℓ κ} {K : Type 0} {T : Type ℓ} {E : Type κ} (dec : Discrete K) (c : Codec T E) where
  -- A sample of one call touches neither the registration nor the inbox of another, and cancels
  -- nothing.
  pub dispatch_response-other :
      (cid other : K) (k : EventKind) (b : Bytes) (p : ConsumerPorts K T E)
      → other ≢ cid
      → let q = dispatch_response dec c cid k b p in
        (q.inbox other ≡ p.inbox other)
        × (contains dec other q.handlers ≡ contains dec other p.handlers)
        × (q.cancels ≡ p.cancels)
  unfolding dispatch_response
  dispatch_response-other cid other k b p h =
      ground (arith, contains-remove_ne dec cid other p.handlers h)

  cancels-dispatch :
      (cid : K) (k : EventKind) (b : Bytes) (p : ConsumerPorts K T E)
      → (dispatch_response dec c cid k b p).cancels ≡ p.cancels
  unfolding dispatch_response
  cancels-dispatch cid k b p = ground arith

  cancels-deliver :
      (cid : K) (samples : List (EventKind × Bytes)) (p : ConsumerPorts K T E)
      → (deliver dec c cid samples p).cancels ≡ p.cancels
  unfolding deliver
  cancels-deliver cid [] p = refl
  cancels-deliver cid ((k, b) ∷ samples) p =
      cancels-deliver cid samples _ ∙ cancels-dispatch cid _ b p

  -- Whether one of the samples ends the call.
  abbrev pub any_terminal : List (WireEvent T E) → Bool
  any_terminal [] = false
  any_terminal (w ∷ ws) = is_terminal w || any_terminal ws

  registered-deliver :
      IsRoundTrip c
      → IsTotal c
      → (cid : K) (ws : List (WireEvent T E)) (p : ConsumerPorts K T E) → IsAwaited dec c cid p
      → contains dec cid (deliver dec c cid (frames c ws) p).handlers ≡ not (any_terminal ws)
  unfolding deliver
  registered-deliver rt t cid [] p a = a.0
  registered-deliver rt t cid (w ∷ ws) p a =
      let (b, e) = framed-IsTotal dec c t w in
      let q : ConsumerPorts K T E =
        dispatch_response dec c cid (from_u8 (as_u8 (framed c w).0)) b p in
      let (sent, alive, kept) = dispatch_frame dec c rt cid w b p e a in
      rw e (elim (Bool-cases (is_terminal w)) [
        | inl over ↦
            rw (over, deliver_unregistered dec c cid (frames c ws) q (kept ∙ ap not over))
              (kept ∙ ap not over)
        | inr more ↦ rw more (registered-deliver rt t cid ws q (kept ∙ ap not more, alive))
      ])

  drop_stream-cancels :
      (cid : K) (terminated : Bool) (p : ConsumerPorts K T E)
      → ((drop_stream dec cid terminated p).cancels ≡ (
          if not terminated && contains dec cid p.handlers
          then p.cancels ++ cid ∷ []
          else p.cancels))
        × (contains dec cid (drop_stream dec cid terminated p).handlers ≡ false)
  unfolding drop_stream
  drop_stream-cancels cid terminated p = ground (arith, contains-remove dec cid p.handlers)

  -- A stream that is dropped before its end was read cancels its call remotely, once, exactly if no
  -- terminal sample has come in for it; dropping it again cancels nothing more.
  pub abandoned :
      IsRoundTrip c
      → IsTotal c
      → (cid : K) (ws : List (WireEvent T E)) (p : ConsumerPorts K T E) → IsAwaited dec c cid p
      → let q = drop_stream dec cid false (deliver dec c cid (frames c ws) p) in
        (q.cancels ≡ p.cancels ++ (if any_terminal ws then [] else cid ∷ []))
        × ((drop_stream dec cid false q).cancels ≡ q.cancels)
  abandoned rt t cid ws p a =
      let q : ConsumerPorts K T E = deliver dec c cid (frames c ws) p in
      ground (
        arith,
        drop_stream-cancels cid false q,
        drop_stream-cancels cid false (drop_stream dec cid false q),
        cancels-deliver cid (frames c ws) p,
        registered-deliver rt t cid ws p a,
        append-nil p.cancels,
      )
