-- ===== src/Rx/Recovery/Retry.antt =====
-- ice-rpc-rx/src/transform/error_handling.rs: `retry_with`. The factory and the timers are the
-- environment: what the attempt with each number gives, and how often its pause is pending.
pub mod Spec
pub mod Attempts
use ice_rpc.Common.{
  ℕ, zero, suc, ◌+◌, ◌-◌, leb, ltb, Bool, true, false, not, Option, none, some, List, [], ◌∷◌,
  if◌then◌else◌,
}
use ice_rpc.Rx.Event.{Event, ObservableError, business, technical, empty, is_retryable}
use ice_rpc.Rx.Stream.{pending, ready, Script}
use ice_rpc.Rx.Polls.{Answer, polls_or_panic}
use ice_rpc.Rx.Creation.{Future}

pub record RetryPolicy : Type 0 where
  pub attempts : ℕ
  pub delay : ℕ
  pub only_retryable : Bool

abbrev pub default_policy : RetryPolicy
default_policy = record { attempts = 1; delay = 0; only_retryable = false }

-- `attempts.max(1)`.
abbrev pub at_least_one : ℕ → ℕ
at_least_one zero = 1
at_least_one (suc n) = suc n

-- The timer is armed only for a delay that is not zero.
pub arm : ℕ → ℕ → Option ℕ
arm delay waits = if ltb 0 delay then some waits else none

module _ {κ} {E : Type κ} where
  unfoldable pub is_transient : ObservableError E → Bool
  unfolding is_retryable
  is_transient (technical e) = is_retryable e
  is_transient (business e) = false
  is_transient empty = false

  unfoldable pub should_retry : ℕ → RetryPolicy → ObservableError E → Bool
  unfolding is_transient
  should_retry attempts policy e =
      if leb (at_least_one policy.attempts) attempts
      then false
      else if not policy.only_retryable
      then true
      else is_transient e

module _ {ℓ κ} (T : Type ℓ) (E : Type κ) where
  -- The future that the factory makes for the attempt with this number, from 0, and how often the
  -- pause before it is pending.
  pub record Environment : Type (ℓ ⊔ κ) where
    pub factory : ℕ → Future (Script T E)
    pub pause : ℕ → ℕ

  pub record Retrying : Type (ℓ ⊔ κ) where
    pub attempts : ℕ
    pub pending_future : Option (Future (Script T E))
    pub stream : Option (Script T E)
    pub sleep : Option ℕ
    pub finished : Bool

  -- What one round of the loop comes to.
  pub data Round : Type (ℓ ⊔ κ) where
    returns : Answer T E → Retrying → Round
    continues : Retrying → Round

module _ {ℓ κ} {T : Type ℓ} {E : Type κ} where
  abbrev pub streaming : ℕ → Script T E → Retrying T E
  streaming attempts s = record {
    attempts = attempts;
    pending_future = none;
    stream = some s;
    sleep = none;
    finished = false;
  }

  abbrev pub over : ℕ → Retrying T E
  over attempts = record {
    attempts = attempts;
    pending_future = none;
    stream = none;
    sleep = none;
    finished = true;
  }

  pub after_error : RetryPolicy → Environment T E → ℕ → ObservableError E → Bool → Round T E
  unfolding arm
  after_error policy env attempts e true = Round.continues (record {
    attempts = attempts;
    pending_future = none;
    stream = none;
    sleep = arm policy.delay (env.pause attempts);
    finished = false;
  })
  after_error policy env attempts e false =
      Round.returns (ready (some (Event.error e))) (over attempts)

  -- The part of the round behind an attempt's stream.
  pub forward : RetryPolicy → Environment T E → ℕ → Script T E → Round T E
  unfolding after_error should_retry
  forward policy env attempts [] = Round.returns (ready none) (over attempts)
  forward policy env attempts (pending ∷ s) = Round.returns pending (streaming attempts s)
  forward policy env attempts (ready (Event.next v) ∷ s) =
      Round.returns (ready (some (Event.next v))) (streaming attempts s)
  forward policy env attempts (ready (Event.error e) ∷ s) =
      after_error policy env attempts e (should_retry attempts policy e)
  forward policy env attempts (ready Event.complete ∷ s) =
      Round.returns (ready (some Event.complete)) (over attempts)

  -- The poll of the factory's future.
  pub await : RetryPolicy → Environment T E → ℕ → ℕ → Script T E → Round T E
  unfolding forward
  await policy env attempts zero output = forward policy env attempts output
  await policy env attempts (suc waits) output = Round.returns pending (record {
    attempts = attempts;
    pending_future = some (record { waits = waits; output = output });
    stream = none;
    sleep = none;
    finished = false;
  })

  -- An attempt starts if there is neither a future nor a stream.
  pub attempt :
      RetryPolicy
      → Environment T E
      → ℕ
      → Option (Future (Script T E))
      → Option (Script T E)
      → Round T E
  unfolding await forward
  attempt policy env attempts none (some s) = forward policy env attempts s
  attempt policy env attempts (some f) stream = await policy env attempts f.waits f.output
  attempt policy env attempts none none =
      let f : Future (Script T E) = env.factory attempts in
      await policy env (suc attempts) f.waits f.output

  pub pause_then_attempt : RetryPolicy → Environment T E → Retrying T E → Option ℕ → Round T E
  unfolding attempt
  pause_then_attempt policy env r (some (suc waits)) =
      Round.returns pending (record r { sleep = some waits })
  pause_then_attempt policy env r (some zero) =
      attempt policy env r.attempts r.pending_future r.stream
  pause_then_attempt policy env r none = attempt policy env r.attempts r.pending_future r.stream

  pub round : RetryPolicy → Environment T E → Retrying T E → Round T E
  unfolding pause_then_attempt
  round policy env r =
      if r.finished then Round.returns (ready none) r else pause_then_attempt policy env r r.sleep

  pub after_round :
      (Retrying T E → Option (Answer T E × Retrying T E))
      → Round T E
      → Option (Answer T E × Retrying T E)
  after_round loop (Round.returns answer r) = some (answer, r)
  after_round loop (Round.continues r) = loop r

  -- The loop on fuel; `none` means that the fuel ran out.
  pub retry_loop :
      ℕ → RetryPolicy → Environment T E → Retrying T E → Option (Answer T E × Retrying T E)
  unfolding after_round round
  retry_loop zero policy env r = none
  retry_loop (suc fuel) policy env r = after_round (retry_loop fuel policy env) (round policy env r)

  -- Each round but the last ends an attempt, so one more than the attempts are enough.
  unfoldable pub poll_retry :
      RetryPolicy → Environment T E → Retrying T E → Option (Answer T E × Retrying T E)
  unfolding retry_loop
  poll_retry policy env r = retry_loop (suc (at_least_one policy.attempts)) policy env r

  unfoldable pub retry_with : ℕ → RetryPolicy → Environment T E → Option (Script T E)
  unfolding poll_retry polls_or_panic
  retry_with n policy env = polls_or_panic n (poll_retry policy env) (record {
    attempts = 0;
    pending_future = none;
    stream = none;
    sleep = none;
    finished = false;
  })
