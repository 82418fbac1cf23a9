-- ===== src/Transport/Open/Retry.antt =====
-- open.rs: what `retry_open` has tried when it returns.
use ice_rpc.Common.{
  ◌⊎◌, ℕ, zero, suc, ◌+◌, ◌≤◌, ◌<◌, ◌≡◌, refl, arith, Bool, true, false, not, ◌||◌, if◌then◌else◌,
  inl, inr, Bool-cases, ◌==◌, ==_iff, sym, subst, if_of_true,
}
use ice_rpc.Common.Result.{Result, ok, err}
use ice_rpc.Rx.Event.{RpcError, is_retryable}
use ice_rpc.Transport.Open.{retry_open, or_again, gives_up}

go_on :
    (e : RpcError) (stopped : Bool)
    → gives_up e false stopped ≡ false
    → (is_retryable e ≡ true) × (stopped ≡ false)
unfolding gives_up
go_on e stopped h = go (is_retryable e) stopped h
  where
    go : (b c : Bool) → (not b || (false || c)) ≡ false → (b ≡ true) × (c ≡ false)
    go true true g = cc
    go true false g = (refl, refl)
    go false c g = cc

given_up :
    (e : RpcError) (spent stopped : Bool)
    → gives_up e spent stopped ≡ true
    → (is_retryable e ≡ false) ⊎ (spent ≡ true) ⊎ (stopped ≡ true)
unfolding gives_up
given_up e spent stopped h = go (is_retryable e) spent stopped h
  where
    go : (b c d : Bool) → (not b || (c || d)) ≡ true → (b ≡ false) ⊎ (c ≡ true) ⊎ (d ≡ true)
    go false c d g = inl refl
    go true true d g = inr (inl refl)
    go true false true g = inr (inr refl)
    go true false false g = cc

gives_up-spent : (e : RpcError) (stopped : Bool) → gives_up e true stopped ≡ true
unfolding gives_up
gives_up-spent e stopped = go (is_retryable e)
  where
    go : (b : Bool) → (not b || (true || stopped)) ≡ true
    go true = refl
    go false = refl

module _ {S : Type 0} where
  -- An attempt after which the loop goes on: a retryable failure, with the token not cancelled.
  abbrev pub Transient : Result S RpcError → Bool → Type 0
  Transient (ok s) stopped = ⊥
  Transient (err e) stopped = (is_retryable e ≡ true) × (stopped ≡ false)

  -- An attempt after which it returns; `spent` says that no attempt is left.
  abbrev pub Last : Result S RpcError → Bool → Bool → Type 0
  Last (ok s) spent stopped = Unit
  Last (err e) spent stopped = (is_retryable e ≡ false) ⊎ (spent ≡ true) ⊎ (stopped ≡ true)

  -- The answer is that of attempt `last`, and the loop went on behind each one before it.
  abbrev pub Tried : ℕ → (ℕ → Result S RpcError) → (ℕ → Bool) → ℕ → Result S RpcError × ℕ → Type 0
  Tried left attempt stops made (answer, total) =
      (last : ℕ) × (total ≡ suc last)
      × (made ≤ last)
      × (last ≤ made + left)
      × (answer ≡ attempt last)
      × ((i : ℕ) → made ≤ i → i < last → Transient (attempt i) (stops i))
      × Last (attempt last) (last == made + left) (stops last)

  Tried-later :
      (left made : ℕ) (attempt : ℕ → Result S RpcError) (stops : ℕ → Bool)
      (r : Result S RpcError × ℕ)
      → Transient (attempt made) (stops made)
      → Tried left attempt stops (suc made) r
      → Tried (suc left) attempt stops made r
  Tried-later left made attempt stops r now (last, total, low, high, same, before, end) = (
    last,
    total,
    omega arith,
    omega arith,
    same,
    λ i h k. elim (Bool-cases (i == made)) [
      | inl e ↦ subst (λ j. Transient (attempt j) (stops j)) (sym ((==_iff i made).0 e)) now
      | inr e ↦ before i (ground arith) k
    ],
    subst (λ b. Last (attempt last) b (stops last)) (ground arith) end,
  )

  -- The loop returns behind this attempt.
  Tried-now :
      (left made : ℕ) (attempt : ℕ → Result S RpcError) (stops : ℕ → Bool) (r : Result S RpcError)
      → attempt made ≡ r
      → Last r (made == made + left) (stops made)
      → Tried left attempt stops made (r, suc made)
  Tried-now left made attempt stops r e end = (
    made,
    refl,
    omega arith,
    omega arith,
    sym e,
    λ i h k. absurd (omega arith),
    subst (λ x. Last x (made == made + left) (stops made)) (sym e) end,
  )

  -- `retry_open` returns what its last attempt answered: the first that succeeds, that fails in a way
  -- not worth another attempt, that is the last one allowed, or behind which the token is cancelled.
  -- Each attempt before it failed in a retryable way with the token not cancelled.
  pub retry_open-Tried :
      (left : ℕ) (attempt : ℕ → Result S RpcError) (stops : ℕ → Bool) (made : ℕ)
      → Tried left attempt stops made (retry_open left attempt stops made)
  unfolding retry_open or_again
  retry_open-Tried zero attempt stops made = go (attempt made) refl
    where
      go :
          (r : Result S RpcError)
          → attempt made ≡ r
          → Tried zero attempt stops made
              (or_again r true (stops made) (suc made) (attempt made, suc made))
      go (ok s) e = Tried-now zero made attempt stops (ok s) e tt
      go (err x) e =
          subst (Tried zero attempt stops made)
            (sym (
              if_of_true (gives_up x true (stops made)) (err x, suc made) (attempt made, suc made)
                (gives_up-spent x (stops made))))
            (Tried-now zero made attempt stops (err x) e
              (let is_last : (made == made + 0) ≡ true = ground arith in inr (inl is_last)))
  retry_open-Tried (suc left) attempt stops made =
      go (attempt made) refl (retry_open-Tried left attempt stops (suc made))
    where
      go :
          (r : Result S RpcError)
          → attempt made ≡ r
          → Tried left attempt stops (suc made) (retry_open left attempt stops (suc made))
          → Tried
              (suc left)
              attempt
              stops
              made
              (or_again r false (stops made) (suc made) (retry_open left attempt stops (suc made)))
      go (ok s) e rec = Tried-now (suc left) made attempt stops (ok s) e tt
      go (err x) e rec = split (gives_up x false (stops made)) refl
        where
          split :
              (b : Bool)
              → gives_up x false (stops made) ≡ b
              → Tried
                  (suc left)
                  attempt
                  stops
                  made
                  (if b then (err x, suc made) else retry_open left attempt stops (suc made))
          split true h = Tried-now (suc left) made attempt stops (err x) e (
              let not_last : false ≡ (made == made + suc left) = ground arith in
              given_up x (made == made + suc left) (stops made)
                (subst (λ b. gives_up x b (stops made) ≡ true) not_last h))
          split false h =
              Tried-later left made attempt stops (retry_open left attempt stops (suc made))
                (subst (λ r. Transient r (stops made)) (sym e) (go_on x (stops made) h)) rec
