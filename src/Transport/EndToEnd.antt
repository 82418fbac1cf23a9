-- ===== src/Transport/EndToEnd.antt =====
-- bridge.rs and client.rs together: what the provider's stream says is what the caller reads.
use ice_rpc.Common.{
  ℕ, ◌<◌, ◌≡◌, refl, sym, ap, ◌∙◌, true, false, not, Option, none, some, List, [], ◌∷◌, ◌++◌, map,
  arith, length, if◌then◌else◌, append_assoc, append-nil, Bool-cases, Option-cases, inl, inr,
}
use ice_rpc.Rx.Event.{Event, ObservableError, business, technical, empty}
use ice_rpc.Rx.Event
use ice_rpc.Rx.Stream.{Script}
use ice_rpc.Wire.Kind.{EventKind, as_u8, from_u8}
use ice_rpc.Wire.Event.{
  WireEvent, next, complete, complete_with, error, rpc_error, is_terminal, normalize_wire_event,
}
use ice_rpc.Transport.Codec.{Bytes, Codec, IsRoundTrip, IsTotal}
use ice_rpc.Transport.Fold.{new}
use ice_rpc.Transport.Fold.Unfold.{follow, expand, settle, events, wires-expand}
use ice_rpc.Transport.Responses.{collect_emitter, framed, observable_to_responses}
use ice_rpc.Transport.Responses.Publishing.{publish_all, responses-publish_all}
use ice_rpc.Transport.Client.{
  Inbox, ConsumerPorts, response_handler, contains, update, dispatch_response, contains-remove,
}

module _ {ℓ κ} {T : Type ℓ} {E : Type κ} where
  -- A stream is over at its first terminal event.
  unfoldable pub until_terminal : List (Event T E) → List (Event T E)
  until_terminal [] = []
  until_terminal (e ∷ es) = if Event.is_terminal e then e ∷ [] else e ∷ until_terminal es

module _ {ℓ κ} {T : Type ℓ} {E : Type κ} (c : Codec T E) where
  abbrev pub frame_before :
      EventKind → Option Bytes → List (EventKind × Bytes) → List (EventKind × Bytes)
  frame_before k none rest = []
  frame_before k (some b) rest = (k, b) ∷ rest

  -- The samples that a list of wire events makes.
  abbrev pub frames : List (WireEvent T E) → List (EventKind × Bytes)
  frames [] = []
  frames (w ∷ ws) = frame_before (framed c w).0 (framed c w).1 (frames ws)

  publish_all-collect :
      (ws : List (WireEvent T E)) (s : List (EventKind × Bytes))
      → publish_all c collect_emitter ws s ≡ s ++ frames ws
  publish_all-collect [] s = sym (append-nil s)
  publish_all-collect (w ∷ ws) s = elim (Option-cases (framed c w).1) [
    | inl e ↦ rw (e, append-nil s)
    | inr (b, e) ↦
        rw e (publish_all-collect ws (s ++ ((framed c w).0, b) ∷ []) ∙ append_assoc s _ (frames ws))
  ]

  -- What the handler does with the sample of one wire event, while its stream is read.
  handler_frame :
      IsRoundTrip c
      → (w : WireEvent T E) (b : Bytes) (i : Inbox T E) → (framed c w).1 ≡ some b
      → i.receiver ≡ true
      → response_handler c (from_u8 (as_u8 (framed c w).0)) b i
        ≡ (record i { events = i.events ++ follow (normalize_wire_event w) }, not (is_terminal w))
  unfolding response_handler framed from_u8 as_u8
  handler_frame rt (next v) b i e r = rw (rt.wire (next v) b e, r)
  handler_frame rt complete b i e r = rw (rt.wire complete b e, r)
  handler_frame rt (complete_with v) b i e r = rw (rt.wire (complete_with v) b e, r, append_assoc)
  handler_frame rt (error x) b i e r = rw (rt.wire (error x) b e, r)
  handler_frame rt (rpc_error x) b i e r = rw (rt.rpc_error x b e, r)

module _ {ℓ κ} {K : Type 0} {T : Type ℓ} {E : Type κ} (dec : Discrete K) (c : Codec T E) where
  -- The samples of one call, dispatched in order; the kind travels as the byte of the header.
  unfoldable pub deliver : K → List (EventKind × Bytes) → ConsumerPorts K T E → ConsumerPorts K T E
  deliver cid [] p = p
  deliver cid ((k, b) ∷ samples) p =
      deliver cid samples (dispatch_response dec c cid (from_u8 (as_u8 k)) b p)

  pub deliver_unregistered :
      (cid : K) (samples : List (EventKind × Bytes)) (p : ConsumerPorts K T E)
      → contains dec cid p.handlers ≡ false
      → deliver cid samples p ≡ p
  unfolding deliver dispatch_response
  deliver_unregistered cid [] p h = refl
  deliver_unregistered cid ((k, b) ∷ samples) p h = rw h (deliver_unregistered cid samples p h)

  -- The call is registered and its stream is being read.
  abbrev pub IsAwaited : K → ConsumerPorts K T E → Type 0
  IsAwaited cid p = (contains dec cid p.handlers ≡ true) × ((p.inbox cid).receiver ≡ true)

  update_self : (cid : K) (i : Inbox T E) (f : K → Inbox T E) → update dec cid i f cid ≡ i
  update_self cid i f = ground arith

  pub dispatch_frame :
      IsRoundTrip c
      → (cid : K) (w : WireEvent T E) (b : Bytes) (p : ConsumerPorts K T E)
      → (framed c w).1 ≡ some b
      → IsAwaited cid p
      → let q = dispatch_response dec c cid (from_u8 (as_u8 (framed c w).0)) b p in
        ((q.inbox cid).events ≡ (p.inbox cid).events ++ follow (normalize_wire_event w))
        × ((q.inbox cid).receiver ≡ true)
        × (contains dec cid q.handlers ≡ not (is_terminal w))
  unfolding dispatch_response
  dispatch_frame rt cid w b p e a =
      let i : Inbox T E = record (p.inbox cid) {
        events = (p.inbox cid).events ++ follow (normalize_wire_event w);
      } in
      rw (handler_frame c rt w b (p.inbox cid) e a.1, a.0)
        (elim (Bool-cases (is_terminal w)) [
          | inl over ↦
              rw (over, update_self cid i p.inbox) (refl, a.1, contains-remove dec cid p.handlers)
          | inr more ↦ rw (more, update_self cid i p.inbox) (refl, a.1, a.0)
        ])

  -- The events of one sample, up to a terminal one.
  until_terminal-follow :
      (w : WireEvent T E) (es : List (Event T E))
      → until_terminal (follow (normalize_wire_event w) ++ es)
        ≡ follow (normalize_wire_event w) ++ (if is_terminal w then [] else until_terminal es)
  unfolding until_terminal normalize_wire_event is_terminal Event.is_terminal
  until_terminal-follow (next v) es = refl
  until_terminal-follow complete es = refl
  until_terminal-follow (complete_with v) es = refl
  until_terminal-follow (error x) es = refl
  until_terminal-follow (rpc_error x) es = refl

  pub framed-IsTotal : IsTotal c → (w : WireEvent T E) → (b : Bytes) × ((framed c w).1 ≡ some b)
  unfolding framed
  framed-IsTotal t (rpc_error e) = t.rpc_error_total e
  framed-IsTotal t w = t.wire_total w

  deliver-frames :
      IsRoundTrip c
      → IsTotal c
      → (cid : K) (ws : List (WireEvent T E)) (p : ConsumerPorts K T E) → IsAwaited cid p
      → ((deliver cid (frames c ws) p).inbox cid).events
        ≡ (p.inbox cid).events ++ until_terminal (expand ws)
  unfolding deliver expand until_terminal
  deliver-frames rt t cid [] p a = sym (append-nil _)
  deliver-frames rt t cid (w ∷ ws) p a =
      let (b, e) = framed-IsTotal t w in
      let q : ConsumerPorts K T E =
        dispatch_response dec c cid (from_u8 (as_u8 (framed c w).0)) b p in
      let (sent, alive, kept) = dispatch_frame rt cid w b p e a in
      rw (e, until_terminal-follow w (expand ws))
        (elim (Bool-cases (is_terminal w)) [
          | inl over ↦
              rw
                (
                  over,
                  append-nil (follow (normalize_wire_event w)),
                  deliver_unregistered cid (frames c ws) q (kept ∙ ap not over),
                )
                sent
          | inr more ↦ rw more (
              deliver-frames rt t cid ws q (kept ∙ ap not more, alive)
              ∙ ap (λ xs. xs ++ until_terminal (expand ws)) sent
              ∙ append_assoc (p.inbox cid).events _ _)
        ])

  -- A call that is awaited reads the events of the provider's stream, in order and up to the first
  -- terminal one, however the stream was polled: nothing is lost, doubled or delivered behind the
  -- end. It holds of a codec that encodes every value and decodes what it encoded, on a transport
  -- that delivers each published sample; an `Empty` failure is read as a normal end.
  pub responses-delivered :
      IsRoundTrip c
      → IsTotal c
      → (s : Script T E) (fuel : ℕ) (cid : K) (p : ConsumerPorts K T E) → length s < fuel
      → IsAwaited cid p
      → (samples : List (EventKind × Bytes)) × (observable_to_responses c collect_emitter fuel
            (new (record { script = s; terminated = false }))
            []
          ≡ some samples)
        × (((deliver cid samples p).inbox cid).events
            ≡ (p.inbox cid).events ++ until_terminal (map settle (events s)))
  responses-delivered rt t s fuel cid p h a =
      let (ws, found, same) = wires-expand s fuel h in
      (
        publish_all c collect_emitter ws [],
        responses-publish_all c collect_emitter fuel _ [] ws found,
        rw (publish_all-collect c ws [], ← same) (deliver-frames rt t cid ws p a),
      )
