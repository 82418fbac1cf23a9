-- ===== src/Rx/Recovery/Retry/Attempts.antt =====
-- error_handling.rs: `retry_with` ends, and what a consumer reads behind it.
use ice_rpc.Common.{
  ◌≡◌, refl, sym, ◌∙◌, ℕ, zero, suc, ◌+◌, ◌-◌, ◌<◌, ◌≤◌, leb, ltb, Bool, true, false, Option, none,
  some, [], ◌∷◌, length, Bool-cases, inl, inr, arith,
}
use ice_rpc.Rx.Event.{Event, ObservableError}
use ice_rpc.Rx.Stream.{pending, ready, Script}
use ice_rpc.Rx.Polls.{failed, reading, polls_after, polls_or_panic, then_poll}
use ice_rpc.Rx.Recovery.Retry.{
  RetryPolicy, Environment, Retrying, Round, at_least_one, should_retry, over, arm, after_error,
  forward, await, after_round, retry_loop, poll_retry, retry_with,
}
use ice_rpc.Rx.Recovery.Retry.Spec.{
  is_worth_it, retried, answers, finished_by, later, retried-finished_by, answers-later,
  finished_by-cons, finished_by-closed, finished_by-completed, Gives, Gives-pending, Gives-next,
}

module _ {ℓ κ} {T : Type ℓ} {E : Type κ} (policy : RetryPolicy) (env : Environment T E) where
  abbrev allowed : ℕ
  allowed = at_least_one policy.attempts

  ended : (n attempts : ℕ) → polls_or_panic n (poll_retry policy env) (over attempts) ≡ some []
  unfolding polls_or_panic poll_retry
  ended zero attempts = refl
  ended (suc n) attempts = rw (ended n attempts)

  -- What the polls give, the first of which has come to this round with `fuel` rounds to go.
  abbrev after : ℕ → ℕ → Round T E → Option (Script T E)
  after fuel n r =
      then_poll (polls_or_panic n (poll_retry policy env))
        (after_round (retry_loop fuel policy env) r)

  -- The claim for the attempt with number `i`, from its pause on, and those behind it.
  abbrev starting : ℕ → Option ℕ → Retrying T E
  starting i sleep = record {
    attempts = i;
    pending_future = none;
    stream = none;
    sleep = sleep;
    finished = false;
  }

  abbrev left_of : Option ℕ → ℕ
  left_of none = 0
  left_of (some waits) = waits

  abbrev AttemptGives : (more i : ℕ) → Type (ℓ ⊔ κ)
  AttemptGives more i =
      (sleep : Option ℕ) (fuel n : ℕ)
      → more < fuel
      → left_of sleep + answers env more i ≤ n
      → Gives
          (then_poll (polls_or_panic n (poll_retry policy env))
            (retry_loop fuel policy env (starting i sleep)))
          (retried policy.only_retryable env more i)

  abbrev NextGives : (more i : ℕ) → Type (ℓ ⊔ κ)
  NextGives zero i = Unit
  NextGives (suc more) i = AttemptGives more (suc i)

  no_more :
      (i : ℕ) (e : ObservableError E) → suc i + 0 ≡ allowed → should_retry (suc i) policy e ≡ false
  unfolding should_retry
  no_more i e total = let all : leb allowed (suc i) ≡ true = ground (arith, total) in rw all

  one_more :
      (more i : ℕ) (e : ObservableError E)
      → suc i + suc more ≡ allowed
      → should_retry (suc i) policy e ≡ is_worth_it policy.only_retryable e
  unfolding should_retry
  one_more more i e total =
      let some_left : leb allowed (suc i) ≡ false = ground (arith, total) in rw some_left

  arm_bound : (waits : ℕ) → left_of (arm policy.delay waits) ≤ waits
  unfolding arm
  arm_bound waits = elim (Bool-cases (ltb 0 policy.delay)) [
    | inl e ↦ rw e (omega arith)
    | inr e ↦ rw e (omega arith)
  ]

  after_error-Gives :
      (more i fuel n : ℕ) (e : ObservableError E)
      → suc i + more ≡ allowed
      → more ≤ fuel
      → NextGives more i
      → later env more i ≤ n
      → (d : Bool) → should_retry (suc i) policy e ≡ d
      → Gives
          (after fuel n (after_error policy env (suc i) e d))
          (finished_by policy.only_retryable env more i (record { values = []; ending = failed e }))
  unfolding after_error after_round polls_after reading
  after_error-Gives zero i fuel n e total f next b true h = absurd (cc (no_more i e total))
  after_error-Gives zero i fuel n e total f next b false h =
      (ready (Event.error e) ∷ [], rw (ended n (suc i)), refl)
  after_error-Gives (suc more) i fuel n e total f next b true h =
      let worth : is_worth_it policy.only_retryable e ≡ true = sym (one_more more i e total) ∙ h in
      rw worth (
        next (arm policy.delay (env.pause (suc i))) fuel n (omega arith)
          (omega (arith, arm_bound (env.pause (suc i)))))
  after_error-Gives (suc more) i fuel n e total f next b false h =
      let not_worth : is_worth_it policy.only_retryable e ≡ false =
        sym (one_more more i e total) ∙ h in
      rw not_worth (ready (Event.error e) ∷ [], rw (ended n (suc i)), refl)

  -- From within the stream of attempt `i`.
  forward-Gives :
      (more i fuel n : ℕ) (s : Script T E)
      → suc i + more ≡ allowed
      → more ≤ fuel
      → NextGives more i
      → length s + later env more i ≤ n
      → Gives
          (after fuel n (forward policy env (suc i) s))
          (finished_by policy.only_retryable env more i (reading s))
  unfolding forward polls_or_panic poll_retry retry_loop after_round polls_after reading
  forward-Gives more i fuel n [] total f next b =
      ([], rw (ended n (suc i)), finished_by-closed policy.only_retryable env more i)
  forward-Gives more i fuel zero (pending ∷ s) total f next b = absurd (omega arith)
  forward-Gives more i fuel (suc n) (pending ∷ s) total f next b =
      Gives-pending _ _ (forward-Gives more i allowed n s total (omega arith) next (omega arith))
  forward-Gives more i fuel zero (ready (Event.next v) ∷ s) total f next b = absurd (omega arith)
  forward-Gives more i fuel (suc n) (ready (Event.next v) ∷ s) total f next b =
      Gives-next v _ _ _ (finished_by-cons policy.only_retryable env more i v (reading s))
        (forward-Gives more i allowed n s total (omega arith) next (omega arith))
  forward-Gives more i fuel n (ready Event.complete ∷ s) total f next b = (
    ready Event.complete ∷ [],
    rw (ended n (suc i)),
    finished_by-completed policy.only_retryable env more i,
  )
  forward-Gives more i fuel n (ready (Event.error e) ∷ s) total f next b =
      after_error-Gives more i fuel n e total f next (omega arith) (should_retry (suc i) policy e)
        refl

  await-Gives :
      (more i fuel n waits : ℕ)
      → suc i + more ≡ allowed
      → more ≤ fuel
      → NextGives more i
      → waits + length (env.factory i).output + later env more i ≤ n
      → Gives
          (after fuel n (await policy env (suc i) waits (env.factory i).output))
          (retried policy.only_retryable env more i)
  unfolding await polls_or_panic poll_retry retry_loop after_round
  await-Gives more i fuel n zero total f next b =
      rw (← retried-finished_by policy.only_retryable env more i)
        (forward-Gives more i fuel n (env.factory i).output total f next (omega arith))
  await-Gives more i fuel zero (suc waits) total f next b = absurd (omega arith)
  await-Gives more i fuel (suc n) (suc waits) total f next b =
      Gives-pending _ _ (await-Gives more i allowed n waits total (omega arith) next (omega arith))

  attempt-Gives : (more i : ℕ) → suc i + more ≡ allowed → NextGives more i → AttemptGives more i
  unfolding polls_or_panic poll_retry retry_loop after_round
  attempt-Gives more i total next sleep zero n f b = absurd (omega arith)
  attempt-Gives more i total next none (suc fuel) n f b =
      await-Gives more i fuel n (env.factory i).waits total (omega arith) next
        (omega (arith, answers-later env more i))
  attempt-Gives more i total next (some zero) (suc fuel) n f b =
      await-Gives more i fuel n (env.factory i).waits total (omega arith) next
        (omega (arith, answers-later env more i))
  attempt-Gives more i total next (some (suc waits)) (suc fuel) zero f b = absurd (omega arith)
  attempt-Gives more i total next (some (suc waits)) (suc fuel) (suc n) f b =
      Gives-pending _ _
        (attempt-Gives more i total next (some waits) (suc allowed) n (omega arith) (omega arith))

  attempts_give : (more i : ℕ) → suc i + more ≡ allowed → AttemptGives more i
  attempts_give zero i total = attempt-Gives zero i total tt
  attempts_give (suc more) i total =
      attempt-Gives (suc more) i total (attempts_give more (suc i) (omega arith))

  one_first : suc 0 + (policy.attempts - 1) ≡ allowed
  one_first = at_least policy.attempts
    where
      at_least : (k : ℕ) → suc 0 + (k - 1) ≡ at_least_one k
      at_least zero = refl
      at_least (suc k) = omega arith

  -- A stream of `retry_with` never exhausts the rounds of its loop, so each poll is answered, and a
  -- consumer that polls as often as the attempts, their factories and the pauses answer together,
  -- and once more, reads the values of the first attempt, and behind them, if it failed by an error
  -- that the policy retries, all that the next attempt gives, and so on for as many attempts as the
  -- policy allows, one at least; the ending is that of the last attempt made.
  pub retry_with-retried :
      (n : ℕ)
      → answers env (policy.attempts - 1) 0 < n
      → Gives (retry_with n policy env) (retried policy.only_retryable env (policy.attempts - 1) 0)
  unfolding retry_with polls_or_panic poll_retry
  retry_with-retried zero h = absurd (omega arith)
  retry_with-retried (suc n) h =
      attempts_give (policy.attempts - 1) 0 one_first none (suc allowed) n
        (omega (arith, one_first)) (omega arith)
