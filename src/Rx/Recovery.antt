-- ===== src/Rx/Recovery.antt =====
-- ice-rpc-rx/src/transform/error_handling.rs: `catch_error`. The recovery is a function of the
-- error to the script of the stream that takes over.
pub mod Caught
pub mod Retry
use ice_rpc.Common.{ℕ, Bool, true, false, Option, none, some, List, [], ◌∷◌, if◌then◌else◌}
use ice_rpc.Rx.Event.{Event, business, technical, empty, is_terminal}
use ice_rpc.Rx.Stream.{pending, ready, Script}
use ice_rpc.Rx.Polls.{Answer, polls}

module _ {ℓ κ} (T : Type ℓ) (E : Type κ) where
  pub record CatchError : Type (ℓ ⊔ κ) where
    pub source : Script T E
    pub recovery : Option (Script T E)
    pub finished : Bool

module _ {ℓ κ} {T : Type ℓ} {E : Type κ} where
  -- `source` is the one that failed and is not read again.
  pub poll_recovery : Script T E → Script T E → Answer T E × CatchError T E
  unfolding is_terminal
  poll_recovery source [] =
      (ready none, record { source = source; recovery = some []; finished = true })
  poll_recovery source (pending ∷ r) =
      (pending, record { source = source; recovery = some r; finished = false })
  poll_recovery source (ready e ∷ r) =
      (ready (some e), record { source = source; recovery = some r; finished = is_terminal e })

  pub read_source : (E → Script T E) → Script T E → Answer T E × CatchError T E
  unfolding poll_recovery
  read_source f [] = (ready none, record { source = []; recovery = none; finished = true })
  read_source f (pending ∷ s) = (pending, record { source = s; recovery = none; finished = false })
  read_source f (ready (Event.next v) ∷ s) =
      (ready (some (Event.next v)), record { source = s; recovery = none; finished = false })
  read_source f (ready (Event.error (business e)) ∷ s) = poll_recovery s (f e)
  read_source f (ready (Event.error (technical e)) ∷ s) = (
    ready (some (Event.error (technical e))),
    record { source = s; recovery = none; finished = true },
  )
  read_source f (ready (Event.error empty) ∷ s) =
      (ready (some (Event.error empty)), record { source = s; recovery = none; finished = true })
  read_source f (ready Event.complete ∷ s) =
      (ready (some Event.complete), record { source = s; recovery = none; finished = true })

  pub recover_or_read :
      (E → Script T E) → Option (Script T E) → Script T E → Answer T E × CatchError T E
  unfolding poll_recovery read_source
  recover_or_read f (some r) s = poll_recovery s r
  recover_or_read f none s = read_source f s

  pub poll_catch_error : (E → Script T E) → CatchError T E → Answer T E × CatchError T E
  unfolding recover_or_read
  poll_catch_error f c =
      if c.finished then (ready none, c) else recover_or_read f c.recovery c.source

  unfoldable pub catch_error : ℕ → (E → Script T E) → Script T E → Script T E
  unfolding poll_catch_error polls
  catch_error n f s =
      polls n (poll_catch_error f) (record { source = s; recovery = none; finished = false })
