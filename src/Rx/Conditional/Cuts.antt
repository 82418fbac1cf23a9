-- ===== src/Rx/Conditional/Cuts.antt =====
-- conditional.rs: where a stream is cut off.
use ice_rpc.Common.{
  ◌≡◌, refl, ap, sym, ◌∙◌, ℕ, zero, suc, ◌<◌, Bool, true, false, none, List, [], ◌∷◌, ◌++◌, take,
  replicate, arith,
}
use ice_rpc.Rx.Event.{Event, technical, cancelled}
use ice_rpc.Rx.Stream.{Poll, pending, ready, Script}
use ice_rpc.Rx.Polls.{polls, polls_with}
use ice_rpc.Rx.Conditional
use ice_rpc.Rx.Conditional.{TakeUntil, TakeUntilToken, poll_take_until, poll_until_token}

module _ {ℓ κ} {T : Type ℓ} {E : Type κ} where
  -- The first `k` answers of a source and the event behind them; a source that is closed by then
  -- stays as it is.
  abbrev pub cut : ℕ → Event T E → Script T E → Script T E
  cut zero e s = ready e ∷ []
  cut (suc k) e [] = []
  cut (suc k) e (a ∷ s) = a ∷ cut k e s

  -- A consumer of `take_until_token` whose token is cancelled just before the poll number `k`,
  -- from 0, reads the first `k` answers of the source and then the technical error `Cancelled`,
  -- and nothing behind that, however often it polls; a source that is closed by then stays as it is.
  pub take_until_token-cut :
      (k : ℕ) (later : List Bool) (s : Script T E)
      → Conditional.take_until_token (replicate k false ++ true ∷ later) s
        ≡ cut k (Event.error (technical cancelled)) s
  unfolding Conditional.take_until_token
  take_until_token-cut zero later s =
      ap (◌∷◌ (ready (Event.error (technical cancelled)))) (over later)
    where
      over :
          (flags : List Bool)
          → polls_with flags poll_until_token (record { source = s; done = true }) ≡ []
      over [] = refl
      over (b ∷ flags) = refl
  take_until_token-cut (suc k) later [] = refl
  take_until_token-cut (suc k) later (pending ∷ s) =
      ap (◌∷◌ pending) (take_until_token-cut k later s)
  take_until_token-cut (suc k) later (ready e ∷ s) =
      ap (◌∷◌ (ready e)) (take_until_token-cut k later s)

module _ {ℓ κ μ} {T : Type ℓ} (U : Type μ) {E : Type κ} where
  abbrev alone : Script T E → TakeUntil T U E
  alone s = record { source = s; notifier = none; stopped = false; done = false }

  -- A source whose notifier is gone runs to its own end.
  undisturbed : (n : ℕ) (s : Script T E) → polls n poll_take_until (alone s) ≡ take n s
  unfolding polls poll_take_until
  undisturbed zero s = refl
  undisturbed (suc n) [] = refl
  undisturbed (suc n) (pending ∷ s) = ap (◌∷◌ pending) (undisturbed n s)
  undisturbed (suc n) (ready e ∷ s) = ap (◌∷◌ (ready e)) (undisturbed n s)

module _ {ℓ κ μ} {T : Type ℓ} {U : Type μ} {E : Type κ} where
  over : (n : ℕ) (t : TakeUntil T U E) → t.done ≡ true → polls n poll_take_until t ≡ []
  unfolding polls poll_take_until
  over zero t h = refl
  over (suc n) t h = rw h

  -- What `take_until` makes of a source when its notifier first answers `e` after `k` polls.
  abbrev pub cut_by : ℕ → ℕ → Event U E → Script T E → Script T E
  cut_by n k (Event.next u) s = cut k Event.complete s
  cut_by n k (Event.error e) s = cut k (Event.error e) s
  cut_by n k Event.complete s = take n s

  cut_by-nil : (n k : ℕ) (e : Event U E) → cut_by (suc n) (suc k) e [] ≡ []
  cut_by-nil n k (Event.next u) = refl
  cut_by-nil n k (Event.error e) = refl
  cut_by-nil n k Event.complete = refl

  cut_by-cons :
      (n k : ℕ) (e : Event U E) (a : Poll (Event T E)) (s : Script T E)
      → cut_by (suc n) (suc k) e (a ∷ s) ≡ a ∷ cut_by n k e s
  cut_by-cons n k (Event.next u) a s = refl
  cut_by-cons n k (Event.error e) a s = refl
  cut_by-cons n k Event.complete a s = refl

  -- Polled `n` times, more than `k`, with a notifier that is pending `k` times and then answers:
  -- if that is a value, `take_until` gives the first `k` answers of the source and then completes;
  -- if it is an error, the first `k` answers and then that error; both with nothing behind that,
  -- and a source that is closed by then stays as it is. If it is the notifier's completion, it
  -- gives the source's answers as they are.
  pub take_until-cut :
      (n k : ℕ) (e : Event U E) (later : Script U E) (s : Script T E)
      → k < n
      → Conditional.take_until n (replicate k pending ++ ready e ∷ later) s ≡ cut_by n k e s
  unfolding Conditional.take_until
  take_until-cut zero k e later s h = absurd (omega arith)
  take_until-cut (suc n) zero (Event.next u) later s h =
      ap (◌∷◌ (ready Event.complete)) (over n _ refl)
  take_until-cut (suc n) zero (Event.error e) later s h =
      ap (◌∷◌ (ready (Event.error e))) (over n _ refl)
  take_until-cut (suc n) zero Event.complete later [] h = refl
  take_until-cut (suc n) zero Event.complete later (pending ∷ s) h =
      ap (◌∷◌ pending) (undisturbed U n s)
  take_until-cut (suc n) zero Event.complete later (ready e ∷ s) h =
      ap (◌∷◌ (ready e)) (undisturbed U n s)
  take_until-cut (suc n) (suc k) e later [] h = sym (cut_by-nil n k e)
  take_until-cut (suc n) (suc k) e later (pending ∷ s) h =
      ap (◌∷◌ pending) (take_until-cut n k e later s (omega arith))
      ∙ sym (cut_by-cons n k e pending s)
  take_until-cut (suc n) (suc k) e later (ready e' ∷ s) h =
      ap (◌∷◌ (ready e')) (take_until-cut n k e later s (omega arith))
      ∙ sym (cut_by-cons n k e (ready e') s)
