-- ===== src/Transport/Pump/Terminated.antt =====
-- pump.rs: how soon a busy loop leaves once the process is asked to terminate.
use ice_rpc.Common.{
  ℕ, ◌+◌, ◌≤◌, ◌%◌, ◌^◌, ◌≡◌, refl, sym, arith, Bool, true, false, List, [], ◌∷◌, if◌then◌else◌,
  subst, none, some, ◌&&◌, ◌==◌, length,
}
use ice_rpc.Transport.Pump.{
  Turn, Did, Counters, Wakeup, Received, nothing, sample, failed, handled, request_shutdown,
  signal_check_samples, turns, turn, take, take_nothing, take_sample, wait_for_wakeup, and_then,
}
use ice_rpc.Transport.Pump.Drained.{handled_in, take_nothing-handled}

ticks-next :
    (t : ℕ) → (((t + 1) % 2 ^ 32) % 256 == 0) ≡ false → ((t + 1) % 2 ^ 32) % 256 ≡ t % 256 + 1
ticks-next t h = ground arith

module _ {ℓ} {S : Type ℓ} where
  -- Every turn finds that the process is asked to terminate.
  abbrev pub IsTerminating : List (Turn S) → Type 0
  IsTerminating [] = Unit
  IsTerminating (t ∷ ts) = (t.termination_requested ≡ true) × IsTerminating ts

  -- A sample is handled unless the counter says that the signal is looked at.
  sample-bounded :
      (s : S) (behind : Counters) (rest : Counters → List (Did S)) (checked : Bool) (ticks : ℕ)
      → ((checked ≡ false) → behind.signal_ticks % 256 ≡ ticks % 256 + 1)
      → length (handled_in (rest behind)) + behind.signal_ticks % 256 ≤ 255
      → length (
            handled_in (
              and_then rest (
                if checked && true
                then (request_shutdown ∷ [], none)
                else (handled s ∷ [], some behind))))
          + ticks % 256
        ≤ 255
  unfolding and_then
  sample-bounded s behind rest true ticks h bound = omega arith
  sample-bounded s behind rest false ticks h bound =
      let eq : behind.signal_ticks % 256 ≡ ticks % 256 + 1 = h refl in omega arith

  take-bounded :
      (r : Received S) (w : Wakeup) (c : Counters) (rest : Counters → List (Did S))
      → ((c' : Counters) → length (handled_in (rest c')) + c'.signal_ticks % 256 ≤ 255)
      → length (handled_in (and_then rest (take r true w c))) + c.signal_ticks % 256 ≤ 255
  unfolding and_then take take_sample take_nothing wait_for_wakeup
  take-bounded (sample s) w c rest bound =
      let ticks : ℕ = (c.signal_ticks + 1) % 2 ^ 32 in
      let behind : Counters = record { idle_spins = 0; signal_ticks = ticks } in
      sample-bounded s behind rest (ticks % signal_check_samples == 0) c.signal_ticks
        (ticks-next c.signal_ticks) (bound behind)
  take-bounded nothing w c rest bound =
      let (c', same, eq) = take_nothing-handled w c rest in
      subst (λ ds. length ds + c.signal_ticks % 256 ≤ 255) (sym eq)
        (subst (λ k. length (handled_in (rest c')) + k % 256 ≤ 255) same (bound c'))
  take-bounded failed w c rest bound = bound (record c { idle_spins = 0 })

  turn-bounded :
      (r : Received S) (w : Wakeup) (c : Counters) (rest : Counters → List (Did S))
      (stop asked : Bool)
      → asked ≡ true
      → ((c' : Counters) → length (handled_in (rest c')) + c'.signal_ticks % 256 ≤ 255)
      → length (handled_in (and_then rest (if stop then ([], none) else take r asked w c)))
          + c.signal_ticks % 256
        ≤ 255
  unfolding and_then
  turn-bounded r w c rest true asked h bound = omega arith
  turn-bounded r w c rest false true h bound = take-bounded r w c rest bound
  turn-bounded r w c rest false false h bound = cc

  -- Once every turn finds that the process is asked to terminate, the loop handles at most the
  -- samples that its counter is short of the next multiple of 256, which are 255 at most.
  pub turns-bounded :
      (ts : List (Turn S)) (c : Counters)
      → IsTerminating ts
      → length (handled_in (turns ts c)) + c.signal_ticks % 256 ≤ 255
  unfolding turns turn
  turns-bounded [] c h = omega arith
  turns-bounded (t ∷ ts) c (h, hs) =
      turn-bounded t.received t.wakeup c (λ c'. turns ts c') t.stopped t.termination_requested h
        (λ c'. turns-bounded ts c' hs)
