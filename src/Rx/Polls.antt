-- ===== src/Rx/Polls.antt =====
-- ice-rpc-rx/src/stream.rs, `from_stream`: an operator is a state with a `poll_next`, and what it
-- answers poll by poll is the script of the observable that wraps it.
use ice_rpc.Common.{
  ◌≡◌, refl, append-nil, ap, take, length, ◌≤◌, take-all, ℕ, zero, suc, Option, none, some, List,
  [], ◌∷◌, ◌++◌, append_assoc,
}
use mathlib.Core.Option
use ice_rpc.Common.Result.{Result, ok, err}
use ice_rpc.Rx.Event.{Event, ObservableError}
use ice_rpc.Rx.Stream.{Poll, pending, ready, Script, collect_loop, collect_values}

-- How a stream ends: closed with no terminal event, completed, or failed.
pub data Ending {κ} (E : Type κ) : Type κ where
  closed : Ending E
  completed : Ending E
  failed : ObservableError E → Ending E

module _ {ℓ κ} (T : Type ℓ) (E : Type κ) where
  -- What one call of `poll_next` answers.
  abbrev pub Answer : Type (ℓ ⊔ κ)
  Answer = Poll (Option (Event T E))

  -- What a consumer makes of a stream, whatever the schedule: its values and its ending.
  pub record Reading : Type (ℓ ⊔ κ) where
    pub values : List T
    pub ending : Ending E

module _ {ℓ κ} {T : Type ℓ} {E : Type κ} where
  abbrev pub cons_value : T → Reading T E → Reading T E
  cons_value v r = record { values = v ∷ r.values; ending = r.ending }

  -- The values so far and then all of another stream.
  abbrev pub continued : List T → Reading T E → Reading T E
  continued vs r = record { values = vs ++ r.values; ending = r.ending }

  -- The values up to the first terminal event, and that event.
  unfoldable pub reading : Script T E → Reading T E
  reading [] = record { values = []; ending = closed }
  reading (pending ∷ s) = reading s
  reading (ready (Event.next v) ∷ s) = cons_value v (reading s)
  reading (ready Event.complete ∷ s) = record { values = []; ending = completed }
  reading (ready (Event.error e) ∷ s) = record { values = []; ending = failed e }

  -- One poll of a source that is a script: what it answers and what is left of it.
  unfoldable pub poll_source : Script T E → Answer T E × Script T E
  poll_source [] = (ready none, [])
  poll_source (pending ∷ s) = (pending, s)
  poll_source (ready e ∷ s) = (ready (some e), s)

  unfoldable pub polls_after : Answer T E → Script T E → Script T E
  polls_after pending rest = pending ∷ rest
  polls_after (ready none) rest = []
  polls_after (ready (some e)) rest = ready e ∷ rest

  -- The first `n` answers of a stream that is polled until it is closed.
  unfoldable pub polls {σ} : {S : Type σ} → ℕ → (S → Answer T E × S) → S → Script T E
  unfolding polls_after
  polls zero poll state = []
  polls (suc n) poll state =
      let (answer, state') = poll state in polls_after answer (polls n poll state')

  -- The same for a `poll_next` that may panic, which is `none` here.
  abbrev pub then_poll {σ} :
      {S : Type σ} → (S → Option (Script T E)) → Option (Answer T E × S) → Option (Script T E)
  then_poll rest none = none
  then_poll rest (some (answer, state)) = Option.map (polls_after answer) (rest state)

  unfoldable pub polls_or_panic {σ} :
      {S : Type σ} → ℕ → (S → Option (Answer T E × S)) → S → Option (Script T E)
  unfolding polls_after
  polls_or_panic zero poll state = some []
  polls_or_panic (suc n) poll state = then_poll (polls_or_panic n poll) (poll state)

  -- The same for a `poll_next` that reads its surroundings, a clock or a flag: one poll for each
  -- of the values that it finds there.
  unfoldable pub polls_with {σ χ} :
      {S : Type σ} {X : Type χ} → List X → (X → S → Answer T E × S) → S → Script T E
  unfolding polls_after
  polls_with [] poll state = []
  polls_with (x ∷ xs) poll state =
      let (answer, state') = poll x state in polls_after answer (polls_with xs poll state')

  -- What `collect` returns for a reading.
  abbrev pub collected : Reading T E → Result (List T) (ObservableError E)
  collected r = elim r.ending [ closed ↦ ok r.values | completed ↦ ok r.values | failed e ↦ err e ]

  collect_loop-reading :
      (front : List T) (s : Script T E)
      → collect_loop front s
        ≡ collected (record { values = front ++ (reading s).values; ending = (reading s).ending })
  unfolding collect_loop reading
  collect_loop-reading front [] = rw append-nil
  collect_loop-reading front (pending ∷ s) = collect_loop-reading front s
  collect_loop-reading front (ready (Event.next v) ∷ s) =
      rw (← append_assoc front (v ∷ []) (reading s).values)
        (collect_loop-reading (front ++ v ∷ []) s)
  collect_loop-reading front (ready Event.complete ∷ s) = rw append-nil
  collect_loop-reading front (ready (Event.error e) ∷ s) = refl

  -- `collect` depends on the reading alone.
  pub collect_values-reading : (s : Script T E) → collect_values s ≡ collected (reading s)
  unfolding collect_values
  collect_values-reading s = collect_loop-reading [] s

module _ {ℓ κ μ} {T : Type ℓ} {U : Type μ} {E : Type κ} where
  abbrev pub with_values : (List T → List U) → Reading T E → Reading U E
  with_values f r = record { values = f r.values; ending = r.ending }

module _ {ℓ κ} {T : Type ℓ} {E : Type κ} where
  -- To poll a source that is a script is to read it off.
  pub polls-poll_source : (n : ℕ) (s : Script T E) → polls n poll_source s ≡ take n s
  unfolding polls poll_source
  polls-poll_source zero s = refl
  polls-poll_source (suc n) [] = refl
  polls-poll_source (suc n) (pending ∷ s) = ap (◌∷◌ pending) (polls-poll_source n s)
  polls-poll_source (suc n) (ready e ∷ s) = ap (◌∷◌ (ready e)) (polls-poll_source n s)

  pub reading-take : (n : ℕ) (s : Script T E) → length s ≤ n → reading (take n s) ≡ reading s
  reading-take n s h = rw (take-all n s h)
