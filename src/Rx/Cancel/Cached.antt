-- ===== src/Rx/Cancel/Cached.antt =====
-- rt/cancel.rs: the cached poll does what the plain one does.
use ice_rpc.Common.{
  ◌≡◌, refl, sym, ◌∙◌, ap, ℕ, ◌==◌, ==_iff, Bool, true, false, Option, none, some, List, Bool-cases,
  inl, inr,
}
use ice_rpc.Rx.Cancel.{has, with_waker, poll_cancelled, poll_cancelled_cached}
use ice_rpc.Rx.Cancel.Reachable.{has-with_waker}

-- The cache is no more than what the token knows.
abbrev pub IsCacheOf : List ℕ → Option ℕ → Type 0
IsCacheOf ws none = Unit
IsCacheOf ws (some w) = has ws w ≡ true

-- While the waker in the cache is registered, the cached poll answers as the plain one does and
-- leaves the same wakers registered, and the cache that it leaves is registered again.
pub poll_cancelled_cached-poll_cancelled :
    (cancelled : Bool) (t : ℕ) (ws : List ℕ) (cached : Option ℕ)
    → IsCacheOf ws cached
    → let (is_ready, ws', cached') = poll_cancelled_cached cancelled t ws cached in
      (◌≡◌ {A = Bool × List ℕ} (is_ready, ws') (poll_cancelled cancelled t ws))
      × IsCacheOf ws' cached'
unfolding poll_cancelled_cached poll_cancelled with_waker
poll_cancelled_cached-poll_cancelled true t ws registered h = (refl, h)
poll_cancelled_cached-poll_cancelled false t ws none h =
    (refl, unfold with_waker in has-with_waker ws t)
poll_cancelled_cached-poll_cancelled false t ws (some w) h = elim (Bool-cases (w == t)) [
  | inl e ↦
      let known : has ws t ≡ true = ap (has ws) (sym ((==_iff w t).0 e)) ∙ h in
      rw e (rw known (refl, h))
  | inr e ↦ rw e (refl, has-with_waker ws t)
]
