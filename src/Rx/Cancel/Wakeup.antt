-- ===== src/Rx/Cancel/Wakeup.antt =====
-- rt/cancel.rs: a task that is parked on a cancelled token is woken.
use ice_rpc.Common.{◌≡◌, refl, ap, sym, subst, ◌∙◌, ℕ, true, false, List, [], ◌∷◌, inl, inr}
use ice_rpc.Rx.Cancel.{parked, Token, Action, new, has, act, run}
use ice_rpc.Rx.Cancel.Reachable.{IsReachable, PhaseHolds}
use ice_rpc.Rx.Cancel.Steps.{IsSound, act-IsSound}

run-IsSound : (actions : List Action) (t : ℕ) (k : Token) → IsSound t k → IsSound t (run actions k)
unfolding run
run-IsSound [] t k h = h
run-IsSound (a ∷ actions) t k h = run-IsSound actions t (act a k) (act-IsSound a t k h)

parked_woken :
    (t : ℕ) (k : Token)
    → k.cancelled ≡ true
    → k.taking ≡ false
    → k.to_wake ≡ []
    → IsReachable t k
    → has k.woken t ≡ true
unfolding has
parked_woken t k c q w (inl x) = cc (x.1)
parked_woken t k c q w (inr (inl y)) = cc (sym (ap (λ ws. has ws t) w) ∙ y)
parked_woken t k c q w (inr (inr y)) = y

-- However the steps of any number of calls of `cancel` and of `poll_cancelled` interleave: when
-- the token is cancelled and the call that cancelled it has taken the wakers and called each, every
-- task that is parked behind a `Pending` has been woken.
pub parked-woken :
    (actions : List Action) (t : ℕ)
    → (run actions new).phase t ≡ parked
    → (run actions new).cancelled ≡ true
    → (run actions new).taking ≡ false
    → (run actions new).to_wake ≡ []
    → has (run actions new).woken t ≡ true
parked-woken actions t at c q w =
    let (a, b, place) = run-IsSound actions t new (unfold new in (λ h. cc, λ h. refl, tt)) in
    parked_woken t (run actions new) c q w (subst (PhaseHolds t (run actions new)) at place)
