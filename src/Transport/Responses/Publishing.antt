-- ===== src/Transport/Responses/Publishing.antt =====
-- bridge.rs: the response loop publishes the fold's samples, one after the other.
use ice_rpc.Common.{
  ℕ, zero, suc, ◌≡◌, refl, Option, none, some, List, [], ◌∷◌, arith, if◌then◌else◌, Bool-cases,
  Option-cases, inl, inr,
}
use ice_rpc.Rx.Stream.{pending, ready, Poll}
use ice_rpc.Wire.Kind.{EventKind}
use ice_rpc.Wire.Event.{WireEvent}
use ice_rpc.Transport.Codec.{Bytes, Codec}
use ice_rpc.Transport.Fold.{WireFolding, poll_wire, collected, wires}
use ice_rpc.Transport.Responses.{
  ResponseEmitter, framed, publish_framed, respond, observable_to_responses,
}

module _ {ℓ κ σ} {T : Type ℓ} {E : Type κ} {S : Type σ} (c : Codec T E)
    (emitter : ResponseEmitter S) where
  abbrev go_on : Option Bytes → EventKind → S → (S → S) → S
  go_on none k s rest = s
  go_on (some bytes) k s rest =
      let (s', more) = emitter.emit s k bytes in if more then rest s' else s'

  -- Publish each sample in turn; stop at one that does not encode, or when the emitter says so.
  abbrev pub publish_all : List (WireEvent T E) → S → S
  publish_all [] s = s
  publish_all (w ∷ ws) s = go_on (framed c w).1 (framed c w).0 s (publish_all ws)

  publish_framed_lem :
      (r : EventKind × Option Bytes) (s : S) (rest : S → Option S) (f : S → S)
      → ((s' : S) → rest s' ≡ some (f s'))
      → publish_framed c emitter r s rest ≡ some (go_on r.1 r.0 s f)
  publish_framed_lem (k, none) s rest f h = refl
  publish_framed_lem (k, some bytes) s rest f h = elim (Bool-cases (emitter.emit s k bytes).1) [
    | inl e ↦ rw e (h (emitter.emit s k bytes).0)
    | inr e ↦ rw e
  ]

  respond_lem :
      (fuel : ℕ) (p : Poll (Option (WireEvent T E))) (w : WireFolding T E) (s : S)
      (ws : List (WireEvent T E))
      → ((s : S) (ws : List (WireEvent T E))
          → wires fuel w ≡ some ws
          → observable_to_responses c emitter fuel w s ≡ some (publish_all ws s))
      → collected p (wires fuel w) ≡ some ws
      → respond c emitter p s (observable_to_responses c emitter fuel w) ≡ some (publish_all ws s)
  respond_lem fuel pending w s ws more h = more s ws h
  respond_lem fuel (ready none) w s ws more h = ground arith
  respond_lem fuel (ready (some e)) w s ws more h = elim (Option-cases (wires fuel w)) [
    | inl out ↦ cc
    | inr (es, found) ↦
        let same : e ∷ es ≡ ws = ground arith in
        rw (← same) (publish_framed_lem (framed c e) s _ (publish_all es) (λ s'. more s' es found))
  ]

  -- If the fold ends, so does the loop, and it has published the fold's samples in their order, up
  -- to the first that does not encode or that the emitter takes as the last.
  pub responses-publish_all :
      (fuel : ℕ) (w : WireFolding T E) (s : S) (ws : List (WireEvent T E))
      → wires fuel w ≡ some ws
      → observable_to_responses c emitter fuel w s ≡ some (publish_all ws s)
  unfolding observable_to_responses wires
  responses-publish_all zero w s ws h = cc
  responses-publish_all (suc fuel) w s ws h =
      respond_lem fuel (poll_wire w).0 (poll_wire w).1 s ws
        (responses-publish_all fuel (poll_wire w).1) h
