-- ===== src/Rx/Filtering/Readings.antt =====
-- filtering.rs: what a consumer reads behind each operator, for every schedule of the source.
use ice_rpc.Common.{
  ◌≡◌, refl, ap, ◌∙◌, ℕ, zero, suc, ◌-◌, ◌<◌, ◌==◌, leb, Bool, true, false, Option, none, some,
  List, [], ◌∷◌, length, filter, take, drop, if◌then◌else◌, Bool-cases, arith, inl, inr,
}
use ice_rpc.Rx.Event.{Event}
use ice_rpc.Rx.Stream.{pending, ready, Script}
use ice_rpc.Rx.Polls.{Reading, Ending, completed, polls, reading, cons_value, with_values}
use ice_rpc.Rx.Filtering
use ice_rpc.Rx.Filtering.{
  Take, poll_filter, poll_take, read_take, poll_distinct, poll_skip, poll_first, read_first,
  is_last,
}

suc-==-zero : (k : ℕ) → (suc k == 0) ≡ false
suc-==-zero k = ground arith

suc-leb-zero : (k : ℕ) → leb (suc k) 0 ≡ false
suc-leb-zero k = ground arith

zero-leb : (k : ℕ) → leb 0 k ≡ true
zero-leb k = ground arith

module _ {ℓ} {T : Type ℓ} where
  drop-nil : (k : ℕ) → drop {A = T} k [] ≡ []
  drop-nil zero = refl
  drop-nil (suc k) = refl

  -- The values that differ from the one just before them in the source.
  abbrev pub changes : (T → T → Bool) → Option T → List T → List T
  changes same before [] = []
  changes same before (v ∷ vs) =
      let rest = changes same (some v) vs in if is_last same before v then rest else v ∷ rest

module _ {ℓ κ} {T : Type ℓ} {E : Type κ} where
  -- A consumer of `filter` reads the values that the predicate keeps, in their order, and the
  -- source's own ending, once it polls more often than the source answers.
  pub filter-reading :
      (n : ℕ) (f : T → Bool) (s : Script T E)
      → length s < n
      → reading (Filtering.filter n f s) ≡ with_values (filter f) (reading s)
  unfolding Filtering.filter reading
  filter-reading zero f s h = absurd (omega arith)
  filter-reading (suc n) f [] h = refl
  filter-reading (suc n) f (pending ∷ s) h = filter-reading n f s (omega arith)
  filter-reading (suc n) f (ready (Event.next v) ∷ s) h = elim (Bool-cases (f v)) [
    | inl e ↦ rw e (ap (cons_value v) (filter-reading n f s (omega arith)))
    | inr e ↦ rw e (filter-reading (suc n) f s (omega arith))
  ]
  filter-reading (suc n) f (ready Event.complete ∷ s) h = refl
  filter-reading (suc n) f (ready (Event.error e) ∷ s) h = refl

  -- A consumer of `skip` reads what is left of the source's values without the first `k`, and the
  -- source's own ending, once it polls more often than the source answers.
  pub skip-reading :
      (n k : ℕ) (s : Script T E)
      → length s < n
      → reading (Filtering.skip n k s) ≡ with_values (drop k) (reading s)
  unfolding Filtering.skip reading
  skip-reading zero k s h = absurd (omega arith)
  skip-reading (suc n) k [] h = rw (drop-nil k)
  skip-reading (suc n) k (pending ∷ s) h = skip-reading n k s (omega arith)
  skip-reading (suc n) zero (ready (Event.next v) ∷ s) h =
      ap (cons_value v) (skip-reading n 0 s (omega arith))
  skip-reading (suc n) (suc k) (ready (Event.next v) ∷ s) h = skip-reading (suc n) k s (omega arith)
  skip-reading (suc n) k (ready Event.complete ∷ s) h = rw (drop-nil k)
  skip-reading (suc n) k (ready (Event.error e) ∷ s) h = rw (drop-nil k)

  -- What `take` makes of a source: its first `k` values and a completion if it has so many, and
  -- all of it, as it ends, if it has not.
  abbrev pub taken : ℕ → Reading T E → Reading T E
  taken k r =
      if leb k (length r.values) then record { values = take k r.values; ending = completed } else r

  taken-cons :
      (k : ℕ) (v : T) (r : Reading T E) → cons_value v (taken k r) ≡ taken (suc k) (cons_value v r)
  taken-cons k v r = elim (Bool-cases (leb k (length r.values))) [
    | inl e ↦ ground (arith, e)
    | inr e ↦ ground (arith, e)
  ]

  -- A consumer of `take` reads the first `k` values and a completion if the source has so many
  -- before it ends, whatever comes after them, and otherwise all that the source has and its own
  -- ending, once it polls more often than the source answers.
  pub take-reading :
      (n k : ℕ) (s : Script T E)
      → length s < n
      → reading (Filtering.take n k s) ≡ taken k (reading s)
  unfolding Filtering.take reading
  take-reading zero k s h = absurd (omega arith)
  take-reading (suc n) zero s h = rw (zero-leb (length (reading s).values))
  take-reading (suc n) (suc k) [] h = rw (suc-==-zero k, suc-leb-zero k)
  take-reading (suc n) (suc k) (pending ∷ s) h =
      rw (suc-==-zero k) (take-reading n (suc k) s (omega arith))
  take-reading (suc n) (suc k) (ready (Event.next v) ∷ s) h =
      let e : suc k - 1 ≡ k = omega arith in
      rw (suc-==-zero k)
        (rw e (ap (cons_value v) (take-reading n k s (omega arith)) ∙ taken-cons k v (reading s)))
  take-reading (suc n) (suc k) (ready Event.complete ∷ s) h = rw (suc-==-zero k, suc-leb-zero k)
  take-reading (suc n) (suc k) (ready (Event.error e) ∷ s) h = rw (suc-==-zero k, suc-leb-zero k)

  -- What `first_with` makes of a source: the first value that matches and a completion, and only
  -- the source's ending if there is none.
  abbrev pub first_match : (T → Bool) → List T → Ending E → Reading T E
  first_match f [] end = record { values = []; ending = end }
  first_match f (v ∷ vs) end =
      let rest = first_match f vs end in
      if f v then record { values = v ∷ []; ending = completed } else rest

  -- A consumer of `first_with` reads the first value that matches and a completion, and if none
  -- does, no value and the source's own ending, once it polls more often than the source answers.
  pub first_with-reading :
      (n : ℕ) (f : T → Bool) (s : Script T E)
      → length s < n
      → reading (Filtering.first_with n f s) ≡ first_match f (reading s).values (reading s).ending
  unfolding Filtering.first_with reading
  first_with-reading zero f s h = absurd (omega arith)
  first_with-reading (suc n) f [] h = refl
  first_with-reading (suc n) f (pending ∷ s) h = first_with-reading n f s (omega arith)
  first_with-reading (suc zero) f (ready (Event.next v) ∷ s) h = absurd (omega arith)
  first_with-reading (suc (suc n)) f (ready (Event.next v) ∷ s) h = elim (Bool-cases (f v)) [
    | inl e ↦ rw e refl
    | inr e ↦ rw e (first_with-reading (suc (suc n)) f s (omega arith))
  ]
  first_with-reading (suc n) f (ready Event.complete ∷ s) h = refl
  first_with-reading (suc n) f (ready (Event.error e) ∷ s) h = refl

  distinct-reading :
      (n : ℕ) (same : T → T → Bool)
      → ((u v : T) → same u v ≡ true → u ≡ v)
      → (last : Option T) (s : Script T E) → length s < n
      → reading (polls n (poll_distinct same) (record { source = s; last = last }))
        ≡ with_values (changes same last) (reading s)
  unfolding polls poll_distinct reading
  distinct-reading zero same lawful last s h = absurd (omega arith)
  distinct-reading (suc n) same lawful last [] h = refl
  distinct-reading (suc n) same lawful last (pending ∷ s) h =
      distinct-reading n same lawful last s (omega arith)
  distinct-reading (suc n) same lawful none (ready (Event.next v) ∷ s) h =
      ap (cons_value v) (distinct-reading n same lawful (some v) s (omega arith))
  distinct-reading (suc n) same lawful (some u) (ready (Event.next v) ∷ s) h =
      elim (Bool-cases (same u v)) [
        | inl e ↦
            rw e
              (rw (← lawful u v e) (distinct-reading (suc n) same lawful (some u) s (omega arith)))
        | inr e ↦ rw e (ap (cons_value v) (distinct-reading n same lawful (some v) s (omega arith)))
      ]
  distinct-reading (suc n) same lawful last (ready Event.complete ∷ s) h = refl
  distinct-reading (suc n) same lawful last (ready (Event.error e) ∷ s) h = refl

  -- A consumer of `distinct_until_changed` reads the values that differ from the value just before
  -- them in the source, and the source's own ending, where values that compare equal are equal and
  -- the consumer polls more often than the source answers.
  pub distinct_until_changed-reading :
      (n : ℕ) (same : T → T → Bool)
      → ((u v : T) → same u v ≡ true → u ≡ v)
      → (s : Script T E) → length s < n
      → reading (Filtering.distinct_until_changed n same s)
        ≡ with_values (changes same none) (reading s)
  unfolding Filtering.distinct_until_changed
  distinct_until_changed-reading n same lawful s h = distinct-reading n same lawful none s h

  -- For every schedule of the source, a consumer that polls more often than the source answers
  -- reads, of the source's values in their order: behind `filter`, those that the predicate keeps;
  -- behind `skip`, all but the first `k`; behind `distinct_until_changed`, where values that compare
  -- equal are equal, those that differ from the value just before them; each with the source's own
  -- ending. Behind `take` it reads the first `k` and a completion if there are so many before the
  -- end, whatever comes after them, and else all and the source's ending; behind `first_with` the
  -- first that matches and a completion, and if none does only the source's ending.
  pub filtering-reading :
      (n k : ℕ) (f : T → Bool) (same : T → T → Bool)
      → ((u v : T) → same u v ≡ true → u ≡ v)
      → (s : Script T E) → length s < n
      → (reading (Filtering.filter n f s) ≡ with_values (filter f) (reading s))
        × (reading (Filtering.skip n k s) ≡ with_values (drop k) (reading s))
        × (reading (Filtering.distinct_until_changed n same s)
            ≡ with_values (changes same none) (reading s))
        × (reading (Filtering.take n k s) ≡ taken k (reading s))
        × (reading (Filtering.first_with n f s)
            ≡ first_match f (reading s).values (reading s).ending)
  filtering-reading n k f same lawful s h = (
    filter-reading n f s h,
    skip-reading n k s h,
    distinct_until_changed-reading n same lawful s h,
    take-reading n k s h,
    first_with-reading n f s h,
  )
