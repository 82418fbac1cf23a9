-- ===== src/Rx/Combining.antt =====
-- ice-rpc-rx/src/transform/combining.rs: `start_with` and `merge`.
pub mod Merged
pub mod Readings
use ice_rpc.Common.{
  ℕ, zero, suc, Bool, true, false, not, ◌&&◌, Option, none, some, List, [], ◌∷◌, if◌then◌else◌,
}
use ice_rpc.Rx.Event.{Event}
use ice_rpc.Rx.Stream.{Poll, pending, ready, Script}
use ice_rpc.Rx.Polls.{Answer, polls, poll_source}

module _ {ℓ κ} (T : Type ℓ) (E : Type κ) where
  pub record StartWith : Type (ℓ ⊔ κ) where
    pub source : Script T E
    pub first : Option T

  pub record Merge : Type (ℓ ⊔ κ) where
    pub left : Script T E
    pub right : Script T E
    pub left_done : Bool
    pub right_done : Bool
    pub completed : Bool
    pub left_first : Bool

  -- What the visit of one source in a pass comes to: `poll_next` returns, or the pass goes on.
  pub data Visit : Type (ℓ ⊔ κ) where
    returns : Event T E → Merge → Visit
    passes : Merge → Visit

module _ {ℓ κ} {T : Type ℓ} {E : Type κ} where
  pub forward : Answer T E × Script T E → Answer T E × StartWith T E
  forward (answer, s) = (answer, record { source = s; first = none })

  pub start : Option T → Script T E → Answer T E × StartWith T E
  unfolding forward poll_source
  start (some v) s = (ready (some (Event.next v)), record { source = s; first = none })
  start none s = forward (poll_source s)

  pub poll_start_with : StartWith T E → Answer T E × StartWith T E
  unfolding start
  poll_start_with p = start p.first p.source

  unfoldable pub start_with : ℕ → T → Script T E → Script T E
  unfolding poll_start_with polls
  start_with n v s = polls n poll_start_with (record { source = s; first = some v })

  pub visit_left : Script T E → Merge T E → Visit T E
  visit_left [] m = passes (record m { left_done = true })
  visit_left (pending ∷ s) m = passes (record m { left = s })
  visit_left (ready (Event.next v) ∷ s) m = returns (Event.next v) (record m { left = s })
  visit_left (ready (Event.error e) ∷ s) m =
      returns (Event.error e) (record m { left = s; completed = true })
  visit_left (ready Event.complete ∷ s) m = passes (record m { left = s; left_done = true })

  pub visit_right : Script T E → Merge T E → Visit T E
  visit_right [] m = passes (record m { right_done = true })
  visit_right (pending ∷ s) m = passes (record m { right = s })
  visit_right (ready (Event.next v) ∷ s) m = returns (Event.next v) (record m { right = s })
  visit_right (ready (Event.error e) ∷ s) m =
      returns (Event.error e) (record m { right = s; completed = true })
  visit_right (ready Event.complete ∷ s) m = passes (record m { right = s; right_done = true })

  -- One round of the `for` loop, on the left source or on the right one.
  pub visit : Bool → Merge T E → Visit T E
  unfolding visit_left visit_right
  visit left m =
      if left
      then if m.left_done then passes m else visit_left m.left m
      else if m.right_done
      then passes m
      else visit_right m.right m

  pub emit_complete : Merge T E → Answer T E × Merge T E
  emit_complete m = (ready (some Event.complete), record m { completed = true })

  -- Behind the second round: both sources ended, and the loop goes back to its top, or one is
  -- pending.
  pub after_pass : Visit T E → Answer T E × Merge T E
  unfolding emit_complete
  after_pass (returns e m) = (ready (some e), m)
  after_pass (passes m) = if m.left_done && m.right_done then emit_complete m else (pending, m)

  pub second_round : Bool → Visit T E → Answer T E × Merge T E
  unfolding after_pass visit
  second_round left (returns e m) = (ready (some e), m)
  second_round left (passes m) = after_pass (visit left m)

  pub poll_merge : Merge T E → Answer T E × Merge T E
  unfolding second_round visit emit_complete
  poll_merge m =
      if m.completed
      then (ready none, m)
      else if m.left_done && m.right_done
      then emit_complete m
      else second_round (not m.left_first)
          (visit m.left_first (record m { left_first = not m.left_first }))

  abbrev pub new_merge : Script T E → Script T E → Merge T E
  new_merge left right = record {
    left = left;
    right = right;
    left_done = false;
    right_done = false;
    completed = false;
    left_first = true;
  }

  unfoldable pub merge : ℕ → Script T E → Script T E → Script T E
  unfolding poll_merge polls
  merge n left right = polls n poll_merge (new_merge left right)
