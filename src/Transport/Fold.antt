-- ===== src/Transport/Fold.antt =====
-- ice-rpc/src/transport/bridge.rs: the fold of a value and the `Complete` behind it into one sample.
pub mod Unfold
pub mod Pairs
use ice_rpc.Common.{ℕ, zero, suc, Bool, true, false, Option, none, some, List, [], ◌∷◌}
use ice_rpc.Rx.Event.{Event}
use ice_rpc.Rx.Stream.{Poll, pending, ready, Script, Observable, poll_next}
use ice_rpc.Wire.Event.{WireEvent, next, complete_with, from_event}

module _ {ℓ κ} (T : Type ℓ) (E : Type κ) where
  pub record WireFolding : Type (ℓ ⊔ κ) where
    pub source : Observable T E
    pub look_ahead : Option (Event T E)

module _ {ℓ κ} {T : Type ℓ} {E : Type κ} where
  abbrev pub new : Observable T E → WireFolding T E
  new source = record { source = source; look_ahead = none }

  -- What the second poll, made behind a value, decides.
  abbrev pub after_value :
      T
      → Poll (Option (Event T E)) × Observable T E
      → Poll (Option (WireEvent T E)) × WireFolding T E
  after_value v (pending, source) =
      (ready (some (next v)), record { source = source; look_ahead = none })
  after_value v (ready (some Event.complete), source) =
      (ready (some (complete_with v)), record { source = source; look_ahead = none })
  after_value v (ready other, source) =
      (ready (some (next v)), record { source = source; look_ahead = other })

  abbrev pub fold_event :
      Event T E → Observable T E → Poll (Option (WireEvent T E)) × WireFolding T E
  fold_event (Event.next v) source = after_value v (poll_next source)
  fold_event other source =
      (ready (some (from_event other)), record { source = source; look_ahead = none })

  abbrev pub after_poll :
      Poll (Option (Event T E)) × Observable T E → Poll (Option (WireEvent T E)) × WireFolding T E
  after_poll (pending, source) = (pending, new source)
  after_poll (ready none, source) = (ready none, new source)
  after_poll (ready (some e), source) = fold_event e source

  abbrev pub poll_with :
      Option (Event T E) → Observable T E → Poll (Option (WireEvent T E)) × WireFolding T E
  poll_with (some e) source = fold_event e source
  poll_with none source = after_poll (poll_next source)

  -- `Stream::poll_next` of the fold.
  unfoldable pub poll_wire : WireFolding T E → Poll (Option (WireEvent T E)) × WireFolding T E
  unfolding poll_next from_event
  poll_wire w = poll_with w.look_ahead w.source

  abbrev pub collected :
      Poll (Option (WireEvent T E)) → Option (List (WireEvent T E)) → Option (List (WireEvent T E))
  collected pending rest = rest
  collected (ready none) rest = some []
  collected (ready (some e)) none = none
  collected (ready (some e)) (some es) = some (e ∷ es)

  -- The samples that the fold yields until its end, with fuel for the polls; `none` when it is out.
  unfoldable pub wires : ℕ → WireFolding T E → Option (List (WireEvent T E))
  unfolding poll_wire
  wires zero w = none
  wires (suc fuel) w =
      let (polled, w') = poll_wire w in let rest = wires fuel w' in collected polled rest
