-- ===== src/Rx/Cancel/Steps.antt =====
-- rt/cancel.rs: each atomic step keeps every waiting task within the token's reach.
use ice_rpc.Common.{
  ◌≡◌, refl, sym, subst, ◌∙◌, if_of_true, if_of_false, ℕ, ◌==◌, ==_iff, Bool, true, false, List, [],
  ◌∷◌, inl, inr, if◌then◌else◌, Bool-cases, arith,
}
use ice_rpc.Rx.Cancel.{
  Phase, idle, checked, registered, parked, resolved, Token, Action, swap, take_wakers, wake_one,
  read_flag, register, read_again, has, enter, with_waker, act, wake_head, first_read, do_register,
  second_read,
}
use ice_rpc.Rx.Cancel.Reachable.{
  has-with_waker, has-with_waker_other, PhaseHolds, HoldsRegistered, PhaseHolds-weaken,
  take_wakers-IsReachable, wake_head-IsReachable,
}

-- The invariant: only a cancelled token is taken from, nobody is to be woken before that, and the
-- task is where it must be.
abbrev pub IsSound : ℕ → Token → Type 0
IsSound t k =
    (k.taking ≡ true → k.cancelled ≡ true)
    × (k.cancelled ≡ k.taking → k.to_wake ≡ [])
    × PhaseHolds t k (k.phase t)

swap-IsSound : (t : ℕ) (k : Token) → IsSound t k → IsSound t (act swap k)
unfolding act
swap-IsSound t k (a, b, c) = elim (Bool-cases k.cancelled) [
  | inl e ↦ subst (IsSound t) (sym (if_of_true k.cancelled _ _ e)) (a, b, c)
  | inr e ↦
      let quiet : k.taking ≡ false = ground (arith, a) in
      subst (IsSound t) (sym (if_of_false k.cancelled _ _ e)) (
        λ h. refl,
        λ h. b (e ∙ sym quiet),
        PhaseHolds-weaken t k (record k { cancelled = true; taking = true }) (k.phase t)
            (λ h. inl refl) (λ h. elim h [ inl x ↦ inl (x.0, refl) | inr x ↦ inr x ]) c,
      )
]

take_wakers-IsSound : (t : ℕ) (k : Token) → IsSound t k → IsSound t (act take_wakers k)
unfolding act
take_wakers-IsSound t k (a, b, c) = elim (Bool-cases k.taking) [
  | inl e ↦
      let done : k.cancelled ≡ true = a e in
      subst (IsSound t) (sym (if_of_true k.taking _ _ e)) (
        λ h. done,
        λ h. absurd (cc),
        PhaseHolds-weaken t k (record k { wakers = []; to_wake = k.wakers; taking = false })
            (k.phase t) (λ h. inl done) (take_wakers-IsReachable t k (b (done ∙ sym e))) c,
      )
  | inr e ↦ subst (IsSound t) (sym (if_of_false k.taking _ _ e)) (a, b, c)
]

wake_head-IsSound :
    (t : ℕ) (k : Token) (ts : List ℕ) → k.to_wake ≡ ts → IsSound t k → IsSound t (wake_head ts k)
unfolding wake_head
wake_head-IsSound t k [] e h = h
wake_head-IsSound t k (u ∷ ts) e (a, b, c) = (
  a,
  λ h. absurd (cc (b h)),
  PhaseHolds-weaken t k (record k { to_wake = ts; woken = u ∷ k.woken }) (k.phase t) (λ h. h)
      (wake_head-IsReachable t u ts k e) c,
)

-- A change of the phase of `u` matters to `u` alone, and there only if it is now registered or
-- parked.
enter-IsSound :
    (t u : ℕ) (k : Token) (p : Phase)
    → (u ≡ t → PhaseHolds t k p)
    → IsSound t k
    → IsSound t (record k { phase = enter k.phase u p })
enter-IsSound t u k p new_phase (a, b, c) = elim (Bool-cases (u == t)) [
  | inl e ↦ (
    a,
    b,
    subst (PhaseHolds t k) (sym (if_of_true (u == t) p (k.phase t) e))
        (new_phase ((==_iff u t).0 e)),
  )
  | inr e ↦ (a, b, subst (PhaseHolds t k) (sym (if_of_false (u == t) p (k.phase t) e)) c)
]

read-holds : (t : ℕ) (k : Token) (b : Bool) → PhaseHolds t k (if b then resolved else checked)
read-holds t k true = tt
read-holds t k false = tt

first_read-IsSound : (t u : ℕ) (k : Token) (p : Phase) → IsSound t k → IsSound t (first_read p u k)
unfolding first_read
first_read-IsSound t u k idle h = enter-IsSound t u k _ (λ e. read-holds t k k.cancelled) h
first_read-IsSound t u k parked h = enter-IsSound t u k _ (λ e. read-holds t k k.cancelled) h
first_read-IsSound t u k checked h = h
first_read-IsSound t u k registered h = h
first_read-IsSound t u k resolved h = h

do_register-IsSound :
    (t u : ℕ) (k : Token) (p : Phase) → IsSound t k → IsSound t (do_register p u k)
unfolding do_register
do_register-IsSound t u k idle h = h
do_register-IsSound t u k checked (a, b, c) =
    let k' : Token = record k { wakers = with_waker u k.wakers } in
    enter-IsSound t u k' registered
      (λ e.
        inr (subst (λ v. has (with_waker v k.wakers) t ≡ true) (sym e) (has-with_waker k.wakers t)))
      (
        a,
        b,
        PhaseHolds-weaken t k k' (k.phase t)
            (λ h. elim h [ inl x ↦ inl x | inr x ↦ inr (has-with_waker_other k.wakers u t x) ])
            (λ h. elim h [
              | inl x ↦ inl (has-with_waker_other k.wakers u t x.0, x.1)
              | inr x ↦ inr x
            ])
            c,
      )
do_register-IsSound t u k registered h = h
do_register-IsSound t u k parked h = h
do_register-IsSound t u k resolved h = h

-- Parked only if the flag is still clear: the registration stands, and nothing was taken yet.
park-holds :
    (t : ℕ) (k : Token)
    → (k.taking ≡ true → k.cancelled ≡ true)
    → HoldsRegistered t k
    → (b : Bool) → k.cancelled ≡ b
    → PhaseHolds t k (if b then resolved else parked)
park-holds t k a h true e = tt
park-holds t k a (inl x) false e = absurd (cc)
park-holds t k a (inr x) false e =
    let quiet : k.taking ≡ false = ground (arith, a) in inl (x, e ∙ sym quiet)

second_read-IsSound :
    (t u : ℕ) (k : Token) (p : Phase) → k.phase u ≡ p → IsSound t k → IsSound t (second_read p u k)
unfolding second_read
second_read-IsSound t u k idle at h = h
second_read-IsSound t u k checked at h = h
second_read-IsSound t u k registered at (a, b, c) =
    enter-IsSound t u k _
      (λ e.
        park-holds t k a
          (subst (PhaseHolds t k) at (subst (λ v. PhaseHolds t k (k.phase v)) (sym e) c))
          k.cancelled refl)
      (a, b, c)
second_read-IsSound t u k parked at h = h
second_read-IsSound t u k resolved at h = h

pub act-IsSound : (a : Action) (t : ℕ) (k : Token) → IsSound t k → IsSound t (act a k)
act-IsSound swap t k h = swap-IsSound t k h
act-IsSound take_wakers t k h = take_wakers-IsSound t k h
act-IsSound wake_one t k h = unfold act in wake_head-IsSound t k k.to_wake refl h
act-IsSound (read_flag u) t k h = unfold act in first_read-IsSound t u k (k.phase u) h
act-IsSound (register u) t k h = unfold act in do_register-IsSound t u k (k.phase u) h
act-IsSound (read_again u) t k h = unfold act in second_read-IsSound t u k (k.phase u) refl h
