-- ===== src/Rx/Transforming/SwitchMap.antt =====
-- transforming.rs: `switch_map`. `SwitchMap` projects each value of the source to a stream, which
-- takes the place of the one before; the projection is a function to that stream's script.
use ice_rpc.Common.{
  ◌≡◌, refl, ap, ◌∙◌, ℕ, zero, suc, ◌+◌, ◌<◌, ◌≤◌, Bool, true, false, Option, none, some, List, [],
  ◌∷◌, length, if◌then◌else◌, arith,
}
use ice_rpc.Rx.Event.{Event, ObservableError}
use ice_rpc.Rx.Stream.{pending, ready, Script}
use ice_rpc.Rx.Polls.{
  Answer, polls, polls_after, Reading, Ending, closed, completed, failed, reading, cons_value,
  continued,
}

pub data SourceEnd : Type 0 where
  completes closes : SourceEnd

module _ {ℓ κ μ} (T : Type ℓ) (U : Type μ) (E : Type κ) where
  pub record SwitchMap : Type (ℓ ⊔ κ ⊔ μ) where
    pub source : Script T E
    pub projected : Option (Script U E)
    pub source_end : Option SourceEnd
    pub finished : Bool

module _ {ℓ κ μ} {T : Type ℓ} {U : Type μ} {E : Type κ} where
  abbrev going : Option (Script U E) → Option SourceEnd → Script T E → SwitchMap T U E
  going projected end s = record {
    source = s;
    projected = projected;
    source_end = end;
    finished = false;
  }

  abbrev over : Option (Script U E) → Option SourceEnd → Script T E → SwitchMap T U E
  over projected end s = record {
    source = s;
    projected = projected;
    source_end = end;
    finished = true;
  }

  -- The poll of the projected stream, and what the round does behind it unless it returns.
  pub with_projected :
      Option (Script U E)
      → Option SourceEnd
      → Script T E
      → (Option (Script U E) → Answer U E × SwitchMap T U E)
      → Answer U E × SwitchMap T U E
  with_projected none end s rest = rest none
  with_projected (some []) end s rest = rest none
  with_projected (some (pending ∷ r)) end s rest = rest (some r)
  with_projected (some (ready (Event.next u) ∷ r)) end s rest =
      (ready (some (Event.next u)), going (some r) end s)
  with_projected (some (ready (Event.error e) ∷ r)) end s rest =
      (ready (some (Event.error e)), over (some r) end s)
  with_projected (some (ready Event.complete ∷ r)) end s rest = rest none

  -- With the source over: wait for the projected stream, then end as the source did.
  pub end_or_wait : SourceEnd → Script T E → Option (Script U E) → Answer U E × SwitchMap T U E
  end_or_wait end s (some r) = (pending, going (some r) (some end) s)
  end_or_wait completes s none = (ready (some Event.complete), over none (some completes) s)
  end_or_wait closes s none = (ready none, over none (some closes) s)

  pub ended_round : SourceEnd → Script T E → Option (Script U E) → Answer U E × SwitchMap T U E
  unfolding with_projected end_or_wait
  ended_round end s projected = with_projected projected (some end) s (end_or_wait end s)

  -- The loop while the source is not over; each round that does not return reads the source.
  pub switch_loop :
      (T → Script U E) → Option (Script U E) → Script T E → Answer U E × SwitchMap T U E
  unfolding with_projected ended_round
  switch_loop f projected [] = with_projected projected none [] (ended_round closes [])
  switch_loop f projected (pending ∷ s) =
      with_projected projected none (pending ∷ s) (λ p. (pending, going p none s))
  switch_loop f projected (ready (Event.next v) ∷ s) =
      with_projected projected none (ready (Event.next v) ∷ s) (λ p. switch_loop f (some (f v)) s)
  switch_loop f projected (ready Event.complete ∷ s) =
      with_projected projected none (ready Event.complete ∷ s) (ended_round completes s)
  switch_loop f projected (ready (Event.error e) ∷ s) =
      with_projected projected none (ready (Event.error e) ∷ s)
        (λ p. (ready (some (Event.error e)), over p none s))

  pub switch_round :
      (T → Script U E)
      → Option SourceEnd
      → Option (Script U E)
      → Script T E
      → Answer U E × SwitchMap T U E
  unfolding switch_loop ended_round
  switch_round f none projected s = switch_loop f projected s
  switch_round f (some end) projected s = ended_round end s projected

  pub poll_switch_map : (T → Script U E) → SwitchMap T U E → Answer U E × SwitchMap T U E
  unfolding switch_round
  poll_switch_map f m =
      if m.finished then (ready none, m) else switch_round f m.source_end m.projected m.source

  unfoldable pub switch_map : ℕ → (T → Script U E) → Script T E → Script U E
  unfolding poll_switch_map polls
  switch_map n f s = polls n (poll_switch_map f) (going none none s)

module _ {κ μ} {U : Type μ} {E : Type κ} where
  -- A stream that is never pending.
  abbrev pub IsReady : Script U E → Type 0
  IsReady [] = Unit
  IsReady (pending ∷ r) = ⊥
  IsReady (ready e ∷ r) = IsReady r

  -- One stream behind another; the second is read only if the first does not fail.
  abbrev pub joined : Reading U E → Ending E → Reading U E → Reading U E
  joined r closed rest = continued r.values rest
  joined r completed rest = continued r.values rest
  joined r (failed e) rest = r

  joined-cons :
      (u : U) (r : Reading U E) (end : Ending E) (rest : Reading U E)
      → cons_value u (joined r end rest) ≡ joined (cons_value u r) end rest
  joined-cons u r closed rest = refl
  joined-cons u r completed rest = refl
  joined-cons u r (failed e) rest = refl

module _ {ℓ κ μ} {T : Type ℓ} {U : Type μ} {E : Type κ} where
  abbrev pub flattened : (T → Script U E) → List T → Ending E → Reading U E
  flattened f [] end = record { values = []; ending = end }
  flattened f (v ∷ vs) end = joined (reading (f v)) (reading (f v)).ending (flattened f vs end)

  -- How many answers the source and the projected streams have.
  abbrev pub answers : (T → Script U E) → Script T E → ℕ
  answers f [] = 0
  answers f (pending ∷ s) = suc (answers f s)
  answers f (ready (Event.next v) ∷ s) = length (f v) + answers f s
  answers f (ready Event.complete ∷ s) = 0
  answers f (ready (Event.error e) ∷ s) = 0

  abbrev flat : (T → Script U E) → Script T E → Reading U E
  flat f s = flattened f (reading s).values (reading s).ending

  -- A projected stream that is over leaves the round to the source, as if there were none.
  over_is_none :
      (f : T → Script U E) (s : Script T E) → switch_loop f (some []) s ≡ switch_loop f none s
  unfolding switch_loop
  over_is_none f [] = refl
  over_is_none f (pending ∷ s) = refl
  over_is_none f (ready (Event.next v) ∷ s) = refl
  over_is_none f (ready Event.complete ∷ s) = refl
  over_is_none f (ready (Event.error e) ∷ s) = refl

  completed_is_none :
      (f : T → Script U E) (r : Script U E) (s : Script T E)
      → switch_loop f (some (ready Event.complete ∷ r)) s ≡ switch_loop f none s
  unfolding switch_loop
  completed_is_none f r [] = refl
  completed_is_none f r (pending ∷ s) = refl
  completed_is_none f r (ready (Event.next v) ∷ s) = refl
  completed_is_none f r (ready Event.complete ∷ s) = refl
  completed_is_none f r (ready (Event.error e) ∷ s) = refl

  emits :
      (f : T → Script U E) (u : U) (r : Script U E) (s : Script T E)
      → switch_loop f (some (ready (Event.next u) ∷ r)) s
        ≡ (ready (some (Event.next u)), going (some r) none s)
  unfolding switch_loop
  emits f u r [] = refl
  emits f u r (pending ∷ s) = refl
  emits f u r (ready (Event.next v) ∷ s) = refl
  emits f u r (ready Event.complete ∷ s) = refl
  emits f u r (ready (Event.error e) ∷ s) = refl

  fails :
      (f : T → Script U E) (e : ObservableError E) (r : Script U E) (s : Script T E)
      → switch_loop f (some (ready (Event.error e) ∷ r)) s
        ≡ (ready (some (Event.error e)), over (some r) none s)
  unfolding switch_loop
  fails f e r [] = refl
  fails f e r (pending ∷ s) = refl
  fails f e r (ready (Event.next v) ∷ s) = refl
  fails f e r (ready Event.complete ∷ s) = refl
  fails f e r (ready (Event.error e') ∷ s) = refl

  -- What is read from a round of the loop on.
  abbrev read_from : ℕ → (T → Script U E) → Answer U E × SwitchMap T U E → Reading U E
  read_from n f (answer, m) = reading (polls_after answer (polls n (poll_switch_map f) m))

  projected_reads :
      (f : T → Script U E) (s : Script T E)
      → ((n : ℕ) → answers f s ≤ n → read_from n f (switch_loop f none s) ≡ flat f s)
      → (n : ℕ) (r : Script U E) → IsReady r
      → length r + answers f s ≤ n
      → read_from n f (switch_loop f (some r) s) ≡ joined (reading r) (reading r).ending (flat f s)
  unfolding polls poll_switch_map reading
  projected_reads f s behind n (pending ∷ r) k h = absurd k
  projected_reads f s behind zero (ready (Event.next u) ∷ r) k h = absurd (omega arith)
  projected_reads f s behind (suc n) (ready (Event.next u) ∷ r) k h = rw (emits f u r s) (
      ap (cons_value u) (projected_reads f s behind n r k (omega arith))
      ∙ joined-cons u (reading r) _ _)
  projected_reads f s behind n (ready (Event.error e) ∷ r) k h = rw (fails f e r s)
  projected_reads f s behind n (ready Event.complete ∷ r) k h =
      rw (completed_is_none f r s) (behind n (omega arith))
  projected_reads f s behind n [] k h = rw (over_is_none f s) (behind n (omega arith))

  source_reads :
      (f : T → Script U E)
      → ((v : T) → IsReady (f v))
      → (s : Script T E) (n : ℕ) → answers f s ≤ n
      → read_from n f (switch_loop f none s) ≡ flat f s
  unfolding switch_loop polls poll_switch_map reading
  source_reads f q [] n h = refl
  source_reads f q (pending ∷ s) zero h = absurd (omega arith)
  source_reads f q (pending ∷ s) (suc n) h = source_reads f q s n (omega arith)
  source_reads f q (ready (Event.next v) ∷ s) n h =
      projected_reads f s (source_reads f q s) n (f v) (q v) h
  source_reads f q (ready Event.complete ∷ s) n h = refl
  source_reads f q (ready (Event.error e) ∷ s) n h = refl

  -- Where no projected stream is ever pending, none is cut short: for every schedule of the source,
  -- a consumer of `switch_map` that polls more often than the source and the projected streams
  -- answer reads all the values of the projections, one behind the other, up to the first error of
  -- a projection, and otherwise the source's own ending.
  pub switch_map-flattened :
      (n : ℕ) (f : T → Script U E)
      → ((v : T) → IsReady (f v))
      → (s : Script T E) → answers f s < n
      → reading (switch_map n f s) ≡ flattened f (reading s).values (reading s).ending
  unfolding switch_map polls poll_switch_map
  switch_map-flattened zero f q s h = absurd (omega arith)
  switch_map-flattened (suc n) f q s h = source_reads f q s n (omega arith)
