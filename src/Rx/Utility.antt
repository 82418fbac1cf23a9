-- ===== src/Rx/Utility.antt =====
-- ice-rpc-rx/src/transform/utility.rs: `tap`, `finalize` and `timeout`. What a callback does is
-- left in the state: the values it was given, and how often it ran.
pub mod Readings
pub mod Delay
use ice_rpc.Common.{
  ℕ, zero, suc, ◌+◌, leb, Bool, true, false, Option, none, some, List, [], ◌∷◌, ◌++◌, if◌then◌else◌,
}
use ice_rpc.Rx.Event.{Event, technical, timeout, is_terminal}
use ice_rpc.Rx.Stream.{pending, ready, Script}
use ice_rpc.Rx.Polls.{Answer, polls, polls_with}

module _ {ℓ κ} (T : Type ℓ) (E : Type κ) where
  pub record Tap : Type (ℓ ⊔ κ) where
    pub source : Script T E
    -- What `f` was called with.
    pub seen : List T

  pub record Finalize : Type (ℓ ⊔ κ) where
    pub source : Script T E
    -- `f` is still there.
    pub armed : Bool
    pub runs : ℕ

  pub record Timeout : Type (ℓ ⊔ κ) where
    pub source : Script T E
    -- When the timer in `sleep` fires.
    pub sleep : Option ℕ
    pub done : Bool

-- When the timer fires: it is armed at the first poll.
abbrev pub armed_for : ℕ → ℕ → Option ℕ → ℕ
armed_for duration now none = now + duration
armed_for duration now (some deadline) = deadline

module _ {ℓ κ} {T : Type ℓ} {E : Type κ} where
  pub read_tap : List T → Script T E → Answer T E × Tap T E
  read_tap seen [] = (ready none, record { source = []; seen = seen })
  read_tap seen (pending ∷ s) = (pending, record { source = s; seen = seen })
  read_tap seen (ready (Event.next v) ∷ s) =
      (ready (some (Event.next v)), record { source = s; seen = seen ++ v ∷ [] })
  read_tap seen (ready Event.complete ∷ s) =
      (ready (some Event.complete), record { source = s; seen = seen })
  read_tap seen (ready (Event.error e) ∷ s) =
      (ready (some (Event.error e)), record { source = s; seen = seen })

  unfoldable pub poll_tap : Tap T E → Answer T E × Tap T E
  unfolding read_tap
  poll_tap t = read_tap t.seen t.source

  -- `f.take()` and the call.
  pub fire : Script T E → Bool → ℕ → Finalize T E
  fire s armed runs = record { source = s; armed = false; runs = if armed then runs + 1 else runs }

  pub read_finalize : Script T E → Bool → ℕ → Answer T E × Finalize T E
  unfolding fire is_terminal
  read_finalize [] armed runs = (ready none, fire [] armed runs)
  read_finalize (pending ∷ s) armed runs =
      (pending, record { source = s; armed = armed; runs = runs })
  read_finalize (ready e ∷ s) armed runs = (
    ready (some e),
    if is_terminal e then fire s armed runs else record { source = s; armed = armed; runs = runs },
  )

  unfoldable pub poll_finalize : Finalize T E → Answer T E × Finalize T E
  unfolding read_finalize
  poll_finalize p = read_finalize p.source p.armed p.runs

  -- The state behind a number of polls.
  abbrev pub state_after {σ} : {S : Type σ} → ℕ → (S → Answer T E × S) → S → S
  state_after zero poll s = s
  state_after (suc n) poll s = state_after n poll (poll s).1

  unfoldable pub tap : Script T E → Tap T E
  tap s = record { source = s; seen = [] }

  unfoldable pub finalize : Script T E → Finalize T E
  finalize s = record { source = s; armed = true; runs = 0 }

  -- `now` is the instant of the poll; a timer that was armed for `d` fires at the first poll that
  -- comes `d` later.
  pub watch : ℕ → ℕ → ℕ → Script T E → Answer T E × Timeout T E
  unfolding is_terminal
  watch duration now deadline [] =
      (ready none, record { source = []; sleep = some deadline; done = false })
  watch duration now deadline (pending ∷ s) =
      if leb deadline now
      then (
        ready (some (Event.error (technical timeout))),
        record { source = s; sleep = some deadline; done = true },
      )
      else (pending, record { source = s; sleep = some deadline; done = false })
  watch duration now deadline (ready e ∷ s) =
      (ready (some e), record { source = s; sleep = some (now + duration); done = is_terminal e })

  pub poll_timeout : ℕ → ℕ → Timeout T E → Answer T E × Timeout T E
  unfolding watch
  poll_timeout duration now t =
      if t.done
      then (ready none, t)
      else watch duration now (armed_for duration now t.sleep) t.source

  unfoldable pub timeout_after : List ℕ → ℕ → Script T E → Script T E
  unfolding poll_timeout polls_with
  timeout_after instants duration s =
      polls_with instants (poll_timeout duration)
        (record { source = s; sleep = none; done = false })
