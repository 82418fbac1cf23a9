-- ===== src/Rx/Conditional.antt =====
-- ice-rpc-rx/src/transform/conditional.rs: `take_until` and `take_until_token`.
pub mod Cuts
use ice_rpc.Common.{ℕ, Bool, true, false, Option, none, some, List, [], ◌∷◌, if◌then◌else◌}
use ice_rpc.Rx.Event.{Event, technical, cancelled}
use ice_rpc.Rx.Stream.{pending, ready, Script}
use ice_rpc.Rx.Polls.{Answer, polls, polls_with, poll_source}

module _ {ℓ κ μ} (T : Type ℓ) (U : Type μ) (E : Type κ) where
  pub record TakeUntil : Type (ℓ ⊔ κ ⊔ μ) where
    pub source : Script T E
    pub notifier : Option (Script U E)
    pub stopped : Bool
    pub done : Bool

module _ {ℓ κ} (T : Type ℓ) (E : Type κ) where
  -- The token is read through the flag that each poll is given.
  pub record TakeUntilToken : Type (ℓ ⊔ κ) where
    pub source : Script T E
    pub done : Bool

module _ {ℓ κ μ} {T : Type ℓ} {U : Type μ} {E : Type κ} where
  -- The source's answer, with the fields as they are by then.
  pub forward_until :
      Option (Script U E) → Bool → Answer T E × Script T E → Answer T E × TakeUntil T U E
  forward_until notifier stopped (answer, s) =
      (answer, record { source = s; notifier = notifier; stopped = stopped; done = false })

  -- Behind the poll of the notifier.
  pub stop_or_read : Option (Script U E) → Bool → Script T E → Answer T E × TakeUntil T U E
  unfolding forward_until poll_source
  stop_or_read notifier stopped s =
      if stopped
      then (
        ready (some Event.complete),
        record { source = s; notifier = notifier; stopped = true; done = true },
      )
      else forward_until notifier stopped (poll_source s)

  pub heed : Option (Script U E) → Bool → Script T E → Answer T E × TakeUntil T U E
  unfolding stop_or_read
  heed none stopped s = stop_or_read none stopped s
  heed (some []) stopped s = stop_or_read none stopped s
  heed (some (pending ∷ q)) stopped s = stop_or_read (some q) stopped s
  heed (some (ready (Event.next u) ∷ q)) stopped s = stop_or_read none true s
  heed (some (ready Event.complete ∷ q)) stopped s = stop_or_read none stopped s
  heed (some (ready (Event.error e) ∷ q)) stopped s = (
    ready (some (Event.error e)),
    record { source = s; notifier = none; stopped = stopped; done = true },
  )

  pub poll_take_until : TakeUntil T U E → Answer T E × TakeUntil T U E
  unfolding heed
  poll_take_until t = if t.done then (ready none, t) else heed t.notifier t.stopped t.source

  unfoldable pub take_until : ℕ → Script U E → Script T E → Script T E
  unfolding poll_take_until polls
  take_until n notifier s =
      polls n poll_take_until
        (record { source = s; notifier = some notifier; stopped = false; done = false })

module _ {ℓ κ} {T : Type ℓ} {E : Type κ} where
  pub forward_token : Answer T E × Script T E → Answer T E × TakeUntilToken T E
  forward_token (answer, s) = (answer, record { source = s; done = false })

  -- `is_cancelled` is what the token answers at this poll.
  pub poll_until_token : Bool → TakeUntilToken T E → Answer T E × TakeUntilToken T E
  unfolding forward_token poll_source
  poll_until_token is_cancelled t =
      if t.done
      then (ready none, t)
      else if is_cancelled
      then (ready (some (Event.error (technical cancelled))), record t { done = true })
      else forward_token (poll_source t.source)

  unfoldable pub take_until_token : List Bool → Script T E → Script T E
  unfolding poll_until_token polls_with
  take_until_token flags s = polls_with flags poll_until_token (record { source = s; done = false })
