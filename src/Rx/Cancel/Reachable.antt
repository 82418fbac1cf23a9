-- ===== src/Rx/Cancel/Reachable.antt =====
-- rt/cancel.rs: where the token finds a task that waits.
use ice_rpc.Common.{
  ◌≡◌, ap, sym, ◌∙◌, ℕ, ◌==◌, true, false, ◌||◌, List, [], ◌∷◌, ◌++◌, ◌⊎◌, inl, inr, Bool-cases,
  arith,
}
use ice_rpc.Rx.Cancel.{Phase, idle, checked, registered, parked, resolved, Token, has, with_waker}

has-append : (ws : List ℕ) (t : ℕ) → has (ws ++ t ∷ []) t ≡ true
unfolding has
has-append [] t = ground (arith)
has-append (w ∷ ws) t = ground (arith, has-append ws t)

has-append_left : (ws : List ℕ) (u t : ℕ) → has ws t ≡ true → has (ws ++ u ∷ []) t ≡ true
unfolding has
has-append_left [] u t h = cc
has-append_left (w ∷ ws) u t h = ground (arith, has-append_left ws u t)

pub has-with_waker : (ws : List ℕ) (t : ℕ) → has (with_waker t ws) t ≡ true
unfolding with_waker
has-with_waker ws t = elim (Bool-cases (has ws t)) [
  | inl e ↦ rw e e
  | inr e ↦ rw e (has-append ws t)
]

pub has-with_waker_other :
    (ws : List ℕ) (u t : ℕ) → has ws t ≡ true → has (with_waker u ws) t ≡ true
unfolding with_waker
has-with_waker_other ws u t h = elim (Bool-cases (has ws u)) [
  | inl e ↦ rw e h
  | inr e ↦ rw e (has-append_left ws u t h)
]

-- Where a parked task will be found by the call of `cancel`, as long as that is under way or to
-- come, and where it was found.
abbrev pub IsReachable : ℕ → Token → Type 0
IsReachable t k =
    ((has k.wakers t ≡ true) × (k.cancelled ≡ k.taking))
    ⊎ ((has k.to_wake t ≡ true) ⊎ (has k.woken t ≡ true))

abbrev pub PhaseHolds : ℕ → Token → Phase → Type 0
PhaseHolds t k registered = (k.cancelled ≡ true) ⊎ (has k.wakers t ≡ true)
PhaseHolds t k parked = IsReachable t k
PhaseHolds t k _ = Unit

abbrev pub HoldsRegistered : ℕ → Token → Type 0
HoldsRegistered t k = (k.cancelled ≡ true) ⊎ (has k.wakers t ≡ true)

pub PhaseHolds-weaken :
    (t : ℕ) (k k' : Token) (p : Phase)
    → (HoldsRegistered t k → HoldsRegistered t k')
    → (IsReachable t k → IsReachable t k')
    → PhaseHolds t k p
    → PhaseHolds t k' p
PhaseHolds-weaken t k k' idle r q h = tt
PhaseHolds-weaken t k k' checked r q h = tt
PhaseHolds-weaken t k k' registered r q h = r h
PhaseHolds-weaken t k k' parked r q h = q h
PhaseHolds-weaken t k k' resolved r q h = tt

-- Nobody is to be woken before the wakers are taken, so nothing is lost when they are.
pub take_wakers-IsReachable :
    (t : ℕ) (k : Token)
    → k.to_wake ≡ []
    → IsReachable t k
    → IsReachable t (record k { wakers = []; to_wake = k.wakers; taking = false })
unfolding has
take_wakers-IsReachable t k none_yet (inl x) = inr (inl x.0)
take_wakers-IsReachable t k none_yet (inr (inl y)) =
    absurd (cc (sym (ap (λ ws. has ws t) none_yet) ∙ y))
take_wakers-IsReachable t k none_yet (inr (inr y)) = inr (inr y)

pub wake_head-IsReachable :
    (t u : ℕ) (ts : List ℕ) (k : Token)
    → k.to_wake ≡ u ∷ ts
    → IsReachable t k
    → IsReachable t (record k { to_wake = ts; woken = u ∷ k.woken })
unfolding has
wake_head-IsReachable t u ts k e (inl x) = inl x
wake_head-IsReachable t u ts k e (inr (inl y)) =
    let y' : ((u == t) || has ts t) ≡ true = sym (ap (λ ws. has ws t) e) ∙ y in
    elim (Bool-cases (u == t)) [
      | inl same ↦ inr (inr (ground (arith, same)))
      | inr other ↦ inr (inl (ground (arith, y', other)))
    ]
wake_head-IsReachable t u ts k e (inr (inr y)) = inr (inr (ground (arith, y)))
