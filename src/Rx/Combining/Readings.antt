-- ===== src/Rx/Combining/Readings.antt =====
-- combining.rs: what a consumer reads behind `start_with`.
use ice_rpc.Common.{◌≡◌, refl, ap, ℕ, zero, suc, ◌<◌, none, [], ◌∷◌, take, length, arith}
use ice_rpc.Rx.Stream.{Script, pending, ready}
use ice_rpc.Rx.Polls.{reading, cons_value, polls, poll_source, reading-take}
use ice_rpc.Rx.Combining
use ice_rpc.Rx.Combining.{poll_start_with}

module _ {ℓ κ} {T : Type ℓ} {E : Type κ} where
  started :
      (n : ℕ) (s : Script T E)
      → polls n poll_start_with (record { source = s; first = none }) ≡ take n s
  unfolding polls poll_start_with poll_source
  started zero s = refl
  started (suc n) [] = refl
  started (suc n) (pending ∷ s) = ap (◌∷◌ pending) (started n s)
  started (suc n) (ready e ∷ s) = ap (◌∷◌ (ready e)) (started n s)

  -- A consumer of `start_with` reads the value and then all that the source gives, once it polls
  -- more often than the source answers.
  pub start_with-reading :
      (n : ℕ) (v : T) (s : Script T E)
      → length s < n
      → reading (Combining.start_with n v s) ≡ cons_value v (reading s)
  unfolding Combining.start_with reading
  start_with-reading zero v s h = absurd (omega arith)
  start_with-reading (suc n) v s h =
      rw (started n s) (ap (cons_value v) (reading-take n s (omega arith)))
