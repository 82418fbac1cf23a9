-- ===== src/Transport/Publish/Delivery.antt =====
-- publish.rs: the loop ends at its deadline at the latest, and its answer says what was delivered.
use ice_rpc.Common.{
  ℕ, zero, suc, ◌+◌, ◌<◌, ◌≡◌, refl, arith, Bool, true, false, Option, some, ◌==◌, Option-cases,
  Bool-cases, inl, inr,
}
use ice_rpc.Common.Result.{Result, ok, err}
use ice_rpc.Rx.Event.{RpcError, cancelled}
use ice_rpc.Transport.Publish.{
  Look, Answer, turn, backoff, wait, after_send, no_subscriber, buffer_full,
  publish_until_delivered,
}

-- How many samples an answer stands for.
abbrev pub deliveries : Answer → ℕ
deliveries (ok done) = 1
deliveries (err e) = 0

wait_lem :
    (e : RpcError) (look : Look) (attempts : ℕ) (again : ℕ → Option Answer × ℕ)
    → ((n : ℕ) → (a : Answer) × (again n ≡ (some a, deliveries a)))
    → (a : Answer) × (wait e look attempts again ≡ (some a, deliveries a))
wait_lem e look attempts again h = elim (Bool-cases look.late) [
  | inl late ↦ rw late (err e, refl)
  | inr early ↦ elim (Option-cases (backoff look attempts)) [
    | inl stop ↦ rw (early, stop) (err cancelled, refl)
    | inr (n, more) ↦ rw (early, more) (h n)
  ]
]

after_send_lem :
    (sent : Result Bool RpcError) (look : Look) (attempts : ℕ) (again : ℕ → Option Answer × ℕ)
    → ((n : ℕ) → (a : Answer) × (again n ≡ (some a, deliveries a)))
    → (a : Answer) × (after_send sent look attempts again ≡ (some a, deliveries a))
after_send_lem (err e) look attempts again h = (err e, refl)
after_send_lem (ok true) look attempts again h = (ok tt, refl)
after_send_lem (ok false) look attempts again h = wait_lem buffer_full look attempts again h

after_send_late :
    (sent : Result Bool RpcError) (look : Look) (attempts : ℕ) (again : ℕ → Option Answer × ℕ)
    → look.late ≡ true
    → (a : Answer) × (after_send sent look attempts again ≡ (some a, deliveries a))
after_send_late (err e) look attempts again h = (err e, refl)
after_send_late (ok true) look attempts again h = (ok tt, refl)
after_send_late (ok false) look attempts again h = rw h (err buffer_full, refl)

-- One turn keeps what the following turns promise.
turn_lem :
    (look : Look) (attempts : ℕ) (again : ℕ → Option Answer × ℕ)
    → ((n : ℕ) → (a : Answer) × (again n ≡ (some a, deliveries a)))
    → (a : Answer) × (turn look attempts again ≡ (some a, deliveries a))
turn_lem look attempts again h = elim (Bool-cases look.shutdown) [
  | inl e ↦ rw e (err cancelled, refl)
  | inr e ↦ elim (Bool-cases (look.subscribers == 0)) [
    | inl c ↦ rw (e, c) (wait_lem no_subscriber look attempts again h)
    | inr c ↦ simp (e, c) (after_send_lem look.sends look attempts again h)
  ]
]

turn_late :
    (look : Look) (attempts : ℕ) (again : ℕ → Option Answer × ℕ)
    → look.late ≡ true
    → (a : Answer) × (turn look attempts again ≡ (some a, deliveries a))
turn_late look attempts again h = elim (Bool-cases look.shutdown) [
  | inl e ↦ rw e (err cancelled, refl)
  | inr e ↦ elim (Bool-cases (look.subscribers == 0)) [
    | inl c ↦ rw (e, c, h) (err no_subscriber, refl)
    | inr c ↦ simp (e, c) (after_send_late look.sends look attempts again h)
  ]
]

suc-shift : (a b : ℕ) → suc a + b ≡ a + suc b
suc-shift a b = omega arith

zero_shift : (b : ℕ) → 0 + b ≡ b
zero_shift b = omega arith

-- If a deadline passes at some turn, then with fuel for the turns up to it the loop answers; `Ok` is
-- answered exactly when one sample was delivered, and an error only when none was: no payload is ever
-- delivered twice, or delivered and reported as failed.
pub publish_until_delivered-answers :
    (ahead fuel now attempts : ℕ) (looks : ℕ → Look)
    → (looks (ahead + now)).late ≡ true
    → ahead < fuel
    → (a : Answer) × (publish_until_delivered fuel looks now attempts ≡ (some a, deliveries a))
unfolding publish_until_delivered
publish_until_delivered-answers ahead zero now attempts looks late h = absurd (omega arith)
publish_until_delivered-answers zero (suc fuel) now attempts looks late h =
    turn_late (looks now) attempts (publish_until_delivered fuel looks (suc now))
      (rw (← zero_shift now) late)
publish_until_delivered-answers (suc ahead) (suc fuel) now attempts looks late h =
    turn_lem (looks now) attempts (publish_until_delivered fuel looks (suc now)) (λ n.
      publish_until_delivered-answers ahead fuel (suc now) n looks (rw (← suc-shift ahead now) late)
        (omega arith))
