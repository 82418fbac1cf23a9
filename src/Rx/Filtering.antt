-- ===== src/Rx/Filtering.antt =====
-- ice-rpc-rx/src/transform/filtering.rs: the operators that drop values. Each has the struct's
-- fields as its state, with the source's script in place of the source, and its `poll_next`.
pub mod Readings
use ice_rpc.Common.{
  ℕ, zero, suc, ◌-◌, ◌==◌, Bool, true, false, Option, none, some, List, [], ◌∷◌, if◌then◌else◌,
}
use ice_rpc.Rx.Event.{Event}
use ice_rpc.Rx.Stream.{pending, ready, Script}
use ice_rpc.Rx.Polls.{Answer, polls}

module _ {ℓ κ} (T : Type ℓ) (E : Type κ) where
  pub record Take : Type (ℓ ⊔ κ) where
    pub source : Script T E
    pub remaining : ℕ
    pub done : Bool

  pub record DistinctUntilChanged : Type (ℓ ⊔ κ) where
    pub source : Script T E
    pub last : Option T

  pub record Skip : Type (ℓ ⊔ κ) where
    pub source : Script T E
    pub remaining : ℕ

  pub record First : Type (ℓ ⊔ κ) where
    pub source : Script T E
    pub completed : Bool
    pub done : Bool

abbrev pub is_last {ℓ} : {T : Type ℓ} → (T → T → Bool) → Option T → T → Bool
is_last same none v = false
is_last same (some u) v = same u v

module _ {ℓ κ} {T : Type ℓ} {E : Type κ} where
  -- The loop of `Filter::poll_next`; the struct holds nothing but the source and the predicate.
  unfoldable pub poll_filter : (T → Bool) → Script T E → Answer T E × Script T E
  poll_filter f [] = (ready none, [])
  poll_filter f (pending ∷ s) = (pending, s)
  poll_filter f (ready (Event.next v) ∷ s) =
      let rest = poll_filter f s in if f v then (ready (some (Event.next v)), s) else rest
  poll_filter f (ready Event.complete ∷ s) = (ready (some Event.complete), s)
  poll_filter f (ready (Event.error e) ∷ s) = (ready (some (Event.error e)), s)

  unfoldable pub filter : ℕ → (T → Bool) → Script T E → Script T E
  unfolding poll_filter polls
  filter n f s = polls n (poll_filter f) s

  -- `Take::poll_next` behind its two tests.
  pub read_take : ℕ → Script T E → Answer T E × Take T E
  read_take k [] = (ready none, record { source = []; remaining = k; done = true })
  read_take k (pending ∷ s) = (pending, record { source = s; remaining = k; done = false })
  read_take k (ready (Event.next v) ∷ s) =
      (ready (some (Event.next v)), record { source = s; remaining = k - 1; done = false })
  read_take k (ready Event.complete ∷ s) =
      (ready (some Event.complete), record { source = s; remaining = k; done = true })
  read_take k (ready (Event.error e) ∷ s) =
      (ready (some (Event.error e)), record { source = s; remaining = k; done = true })

  pub poll_take : Take T E → Answer T E × Take T E
  unfolding read_take
  poll_take t =
      if t.done
      then (ready none, t)
      else if t.remaining == 0
      then (ready (some Event.complete), record t { done = true })
      else read_take t.remaining t.source

  unfoldable pub take : ℕ → ℕ → Script T E → Script T E
  unfolding poll_take polls
  take n k s = polls n poll_take (record { source = s; remaining = k; done = false })

  -- `same` is `PartialEq` of the values.
  pub read_distinct : (T → T → Bool) → Option T → Script T E → Answer T E × DistinctUntilChanged T E
  read_distinct same last [] = (ready none, record { source = []; last = last })
  read_distinct same last (pending ∷ s) = (pending, record { source = s; last = last })
  read_distinct same last (ready (Event.next v) ∷ s) =
      let rest = read_distinct same last s in
      if is_last same last v
      then rest
      else (ready (some (Event.next v)), record { source = s; last = some v })
  read_distinct same last (ready Event.complete ∷ s) =
      (ready (some Event.complete), record { source = s; last = last })
  read_distinct same last (ready (Event.error e) ∷ s) =
      (ready (some (Event.error e)), record { source = s; last = last })

  pub poll_distinct :
      (T → T → Bool) → DistinctUntilChanged T E → Answer T E × DistinctUntilChanged T E
  unfolding read_distinct
  poll_distinct same d = read_distinct same d.last d.source

  unfoldable pub distinct_until_changed : ℕ → (T → T → Bool) → Script T E → Script T E
  unfolding poll_distinct polls
  distinct_until_changed n same s =
      polls n (poll_distinct same) (record { source = s; last = none })

  pub read_skip : ℕ → Script T E → Answer T E × Skip T E
  read_skip k [] = (ready none, record { source = []; remaining = k })
  read_skip k (pending ∷ s) = (pending, record { source = s; remaining = k })
  read_skip zero (ready (Event.next v) ∷ s) =
      (ready (some (Event.next v)), record { source = s; remaining = 0 })
  read_skip (suc k) (ready (Event.next v) ∷ s) = read_skip k s
  read_skip k (ready Event.complete ∷ s) =
      (ready (some Event.complete), record { source = s; remaining = k })
  read_skip k (ready (Event.error e) ∷ s) =
      (ready (some (Event.error e)), record { source = s; remaining = k })

  pub poll_skip : Skip T E → Answer T E × Skip T E
  unfolding read_skip
  poll_skip p = read_skip p.remaining p.source

  unfoldable pub skip : ℕ → ℕ → Script T E → Script T E
  unfolding poll_skip polls
  skip n k s = polls n poll_skip (record { source = s; remaining = k })

  pub read_first : (T → Bool) → Script T E → Answer T E × First T E
  read_first f [] = (ready none, record { source = []; completed = false; done = false })
  read_first f (pending ∷ s) = (pending, record { source = s; completed = false; done = false })
  read_first f (ready (Event.next v) ∷ s) =
      let rest = read_first f s in
      if f v
      then (ready (some (Event.next v)), record { source = s; completed = true; done = false })
      else rest
  read_first f (ready Event.complete ∷ s) =
      (ready (some Event.complete), record { source = s; completed = false; done = true })
  read_first f (ready (Event.error e) ∷ s) =
      (ready (some (Event.error e)), record { source = s; completed = false; done = true })

  pub poll_first : (T → Bool) → First T E → Answer T E × First T E
  unfolding read_first
  poll_first f p =
      if p.done
      then (ready none, p)
      else if p.completed
      then (ready (some Event.complete), record p { done = true })
      else read_first f p.source

  unfoldable pub first_with : ℕ → (T → Bool) → Script T E → Script T E
  unfolding poll_first polls
  first_with n f s = polls n (poll_first f) (record { source = s; completed = false; done = false })

  unfoldable pub first : ℕ → Script T E → Script T E
  unfolding first_with
  first n s = first_with n (λ v. true) s
