-- ===== src/Transport/Pump.antt =====
-- ice-rpc/src/transport/pump.rs and waitset.rs: the receive loop of a dispatch thread. What its
-- surroundings answer at each turn is a schedule, and what the loop does is a log.
pub mod Drained
pub mod Terminated
pub mod Idle
use ice_rpc.Common.{
  ℕ, ◌+◌, ◌%◌, ◌^◌, ◌==◌, ltb, Bool, true, false, ◌&&◌, ◌||◌, Option, none, some, List, [], ◌∷◌,
  ◌++◌, if◌then◌else◌,
}

-- WaitSetRunResult, and the error of the wait.
pub data RunResult : Type 0 where
  all_events_handled stop_request termination_request interrupt wait_failed : RunResult

-- What a wait reports: for each ready attachment whether it is the listener's, and how it ended.
pub record Wakeup : Type 0 where
  pub from_guard : List Bool
  pub result : RunResult

-- `subscriber.receive()`.
pub data Received {ℓ} (S : Type ℓ) : Type ℓ where
  sample : S → Received S
  nothing : Received S
  failed : Received S

-- The answers of one turn: of `stop`, of the subscriber, of the signal handler and of the wait.
pub record Turn {ℓ} (S : Type ℓ) : Type ℓ where
  pub stopped : Bool
  pub received : Received S
  pub termination_requested : Bool
  pub wakeup : Wakeup

pub data Did {ℓ} (S : Type ℓ) : Type ℓ where
  handled : S → Did S
  yielded warned waited request_shutdown : Did S

-- The two counters of the loop.
pub record Counters : Type 0 where
  pub idle_spins : ℕ
  pub signal_ticks : ℕ

abbrev pub signal_check_samples : ℕ
signal_check_samples = 256

abbrev pub max_idle_spins : ℕ
max_idle_spins = 2000

unfoldable pub any : List Bool → Bool
any [] = false
any (b ∷ bs) = b || any bs

unfoldable pub is_termination : RunResult → Bool
is_termination termination_request = true
is_termination interrupt = true
is_termination _ = false

-- Whether a notification was seen, and whether the wait asked the process to shut down.
unfoldable pub wait_for_wakeup : Wakeup → Bool × Bool
unfolding any is_termination
wait_for_wakeup w =
    let notified = any w.from_guard in
    if is_termination w.result then (true, true) else (notified, false)

module _ {ℓ} {S : Type ℓ} where
  -- `ticks & (SIGNAL_CHECK_SAMPLES - 1) == 0` for a power of two.
  unfoldable pub take_sample : S → Bool → Counters → List (Did S) × Option Counters
  take_sample s termination c =
      let ticks = (c.signal_ticks + 1) % 2 ^ 32 in
      if ticks % signal_check_samples == 0 && termination
      then (request_shutdown ∷ [], none)
      else (handled s ∷ [], some (record { idle_spins = 0; signal_ticks = ticks }))

  unfoldable pub take_nothing : Wakeup → Counters → List (Did S) × Option Counters
  unfolding wait_for_wakeup
  take_nothing w c =
      if ltb c.idle_spins max_idle_spins
      then (yielded ∷ [], some (record c { idle_spins = c.idle_spins + 1 }))
      else let (notified, asked) = wait_for_wakeup w in
        (
          waited ∷ (if asked then request_shutdown ∷ [] else []),
          some (record c { idle_spins = if notified then 0 else max_idle_spins }),
        )

  unfoldable pub take : Received S → Bool → Wakeup → Counters → List (Did S) × Option Counters
  unfolding take_sample take_nothing
  take (sample s) termination w c = take_sample s termination c
  take nothing termination w c = take_nothing w c
  take failed termination w c = (warned ∷ yielded ∷ [], some (record c { idle_spins = 0 }))

  -- One turn of `while !stop()`: what it did, and the counters behind it when it goes on.
  unfoldable pub turn : Turn S → Counters → List (Did S) × Option Counters
  unfolding take
  turn t c = if t.stopped then ([], none) else take t.received t.termination_requested t.wakeup c

  unfoldable pub and_then :
      (Counters → List (Did S)) → List (Did S) × Option Counters → List (Did S)
  and_then rest (did, none) = did
  and_then rest (did, some c) = did ++ rest c

  unfoldable pub turns : List (Turn S) → Counters → List (Did S)
  unfolding turn and_then
  turns [] c = []
  turns (t ∷ ts) c = and_then (λ c'. turns ts c') (turn t c)

  -- The setup: a loop without its wait set is not entered.
  unfoldable pub run_receive_loop : (created attached : Bool) → List (Turn S) → List (Did S)
  unfolding turns
  run_receive_loop false attached ts = []
  run_receive_loop true false ts = []
  run_receive_loop true true ts = turns ts (record { idle_spins = 0; signal_ticks = 0 })
