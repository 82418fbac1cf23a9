-- ===== src/Transport/Fold/Pairs.antt =====
-- bridge.rs: which samples the fold makes of a source that never keeps it waiting.
use ice_rpc.Common.{
  ℕ, zero, suc, ◌+◌, ◌<◌, ◌≡◌, refl, Bool, true, false, Option, none, some, List, [], ◌∷◌, ◌++◌,
  arith, length,
}
use ice_rpc.Rx.Event.{Event}
use ice_rpc.Rx.Stream.{ready, Script, poll_next}
use ice_rpc.Wire.Event.{WireEvent, complete_with, from_event}
use ice_rpc.Transport.Fold.{WireFolding, new, fold_event, collected, wires}
use ice_rpc.Transport.Fold.Unfold.{look_events}

module _ {ℓ κ} {T : Type ℓ} {E : Type κ} where
  -- Each value with a `Complete` right behind it is one sample, and each other event is one.
  unfoldable pub paired : List (Event T E) → List (WireEvent T E)
  unfolding from_event
  paired [] = []
  paired (Event.next v ∷ Event.complete ∷ es) = complete_with v ∷ paired es
  paired (e ∷ es) = from_event e ∷ paired es

  abbrev pub all_ready : List (Event T E) → Script T E
  all_ready [] = []
  all_ready (e ∷ es) = ready e ∷ all_ready es

  abbrev folding : Option (Event T E) → List (Event T E) → Bool → WireFolding T E
  folding look es t = record {
    source = record { script = all_ready es; terminated = t };
    look_ahead = look;
  }

  paired_fold :
      (fuel : ℕ)
      → ((look : Option (Event T E)) (es : List (Event T E)) (t : Bool)
          → length es + length (look_events look) < fuel
          → wires fuel (folding look es t) ≡ some (paired (look_events look ++ es)))
      → (e : Event T E) (es : List (Event T E)) (t : Bool) → length es < fuel
      → (let r = fold_event e (record { script = all_ready es; terminated = t }) in
          collected r.0 (wires fuel r.1) ≡ some (paired (e ∷ es)))
  unfolding poll_next wires paired
  paired_fold fuel more (Event.next v) [] t h = rw (more none [] t (omega arith))
  paired_fold fuel more (Event.next v) (Event.complete ∷ es) t h =
      rw (more none es true (omega arith))
  paired_fold fuel more (Event.next v) (Event.next u ∷ es) t h =
      rw (more (some (Event.next u)) es t (omega arith))
  paired_fold fuel more (Event.next v) (Event.error u ∷ es) t h =
      rw (more (some (Event.error u)) es true (omega arith))
  paired_fold fuel more e es t h = rw (more none es t (omega arith))

  wires_ready :
      (fuel : ℕ) (look : Option (Event T E)) (es : List (Event T E)) (t : Bool)
      → length es + length (look_events look) < fuel
      → wires fuel (folding look es t) ≡ some (paired (look_events look ++ es))
  unfolding wires paired
  wires_ready zero look es t h = elim h [ ]
  wires_ready (suc fuel) none [] t h = refl
  wires_ready (suc fuel) none (e ∷ es) t h =
      paired_fold fuel (wires_ready fuel) e es _ (omega arith)
  wires_ready (suc fuel) (some e) es t h = paired_fold fuel (wires_ready fuel) e es t (omega arith)

  -- A source that always has its next event at hand is published as `paired` says: a value and the
  -- `Complete` right behind it travel as one sample, and every other event as one of its own.
  pub wires-paired :
      (es : List (Event T E)) (fuel : ℕ)
      → length es < fuel
      → wires fuel (new (record { script = all_ready es; terminated = false })) ≡ some (paired es)
  wires-paired es fuel h = wires_ready fuel none es false (omega arith)
