-- ===== src/Rx/Transforming.antt =====
-- ice-rpc-rx/src/transform/transforming.rs: `map`, `map_err` and `scan`;
-- `switch_map` is the child SwitchMap.
pub mod Readings
pub mod SwitchMap
use ice_rpc.Common.{ℕ, zero, suc, Bool, true, false, Option, none, some, List, [], ◌∷◌}
use ice_rpc.Rx.Event.{Event, business, technical, empty}
use ice_rpc.Rx.Stream.{pending, ready, Script}
use ice_rpc.Rx.Polls.{Answer, polls}

module _ {ℓ κ μ} {T : Type ℓ} {U : Type μ} {E : Type κ} where
  -- `Map` holds nothing but the source and the function.
  pub poll_map : (T → U) → Script T E → Answer U E × Script T E
  poll_map f [] = (ready none, [])
  poll_map f (pending ∷ s) = (pending, s)
  poll_map f (ready (Event.next v) ∷ s) = (ready (some (Event.next (f v))), s)
  poll_map f (ready Event.complete ∷ s) = (ready (some Event.complete), s)
  poll_map f (ready (Event.error e) ∷ s) = (ready (some (Event.error e)), s)

  unfoldable pub map : ℕ → (T → U) → Script T E → Script U E
  unfolding poll_map polls
  map n f s = polls n (poll_map f) s

module _ {ℓ κ μ} {T : Type ℓ} {E : Type κ} {F : Type μ} where
  pub poll_map_err : (E → F) → Script T E → Answer T F × Script T E
  poll_map_err f [] = (ready none, [])
  poll_map_err f (pending ∷ s) = (pending, s)
  poll_map_err f (ready (Event.next v) ∷ s) = (ready (some (Event.next v)), s)
  poll_map_err f (ready (Event.error (business e)) ∷ s) =
      (ready (some (Event.error (business (f e)))), s)
  poll_map_err f (ready (Event.error (technical e)) ∷ s) =
      (ready (some (Event.error (technical e))), s)
  poll_map_err f (ready (Event.error empty) ∷ s) = (ready (some (Event.error empty)), s)
  poll_map_err f (ready Event.complete ∷ s) = (ready (some Event.complete), s)

  unfoldable pub map_err : ℕ → (E → F) → Script T E → Script T F
  unfolding poll_map_err polls
  map_err n f s = polls n (poll_map_err f) s

module _ {ℓ κ μ} (T : Type ℓ) (U : Type μ) (E : Type κ) where
  -- `acc` is `Some` between two polls: a poll that takes it puts the next one back.
  pub record Scan : Type (ℓ ⊔ κ ⊔ μ) where
    pub source : Script T E
    pub acc : U

module _ {ℓ κ μ} {T : Type ℓ} {U : Type μ} {E : Type κ} where
  pub read_scan : (U → T → U) → U → Script T E → Answer U E × Scan T U E
  read_scan f acc [] = (ready none, record { source = []; acc = acc })
  read_scan f acc (pending ∷ s) = (pending, record { source = s; acc = acc })
  read_scan f acc (ready (Event.next v) ∷ s) =
      let value = f acc v in (ready (some (Event.next value)), record { source = s; acc = value })
  read_scan f acc (ready Event.complete ∷ s) =
      (ready (some Event.complete), record { source = s; acc = acc })
  read_scan f acc (ready (Event.error e) ∷ s) =
      (ready (some (Event.error e)), record { source = s; acc = acc })

  pub poll_scan : (U → T → U) → Scan T U E → Answer U E × Scan T U E
  unfolding read_scan
  poll_scan f p = read_scan f p.acc p.source

  unfoldable pub scan : ℕ → U → (U → T → U) → Script T E → Script U E
  unfolding poll_scan polls
  scan n initial f s = polls n (poll_scan f) (record { source = s; acc = initial })
