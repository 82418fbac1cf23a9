-- ===== src/Transport/Pump/Idle.antt =====
-- pump.rs: an idle channel spins first and then blocks.
use ice_rpc.Common.{
  ℕ, zero, suc, ◌+◌, ◌≡◌, refl, ap, sym, arith, Bool, true, false, List, [], ◌∷◌, ◌++◌,
  if◌then◌else◌, ltb, subst, some,
}
use ice_rpc.Transport.Pump.{
  Turn, all_events_handled, nothing, yielded, waited, max_idle_spins, turns, turn, take,
  take_nothing, wait_for_wakeup, any, is_termination, and_then, run_receive_loop,
}

abbrev pub repeat {ℓ} : {A : Type ℓ} → ℕ → A → List A
repeat zero x = []
repeat (suc n) x = x ∷ repeat n x

module _ {ℓ} {S : Type ℓ} where
  -- A turn on which nothing is there to do, and a wait would run into its deadline.
  unfoldable pub quiet : Turn S
  quiet = record {
    stopped = false;
    received = nothing;
    termination_requested = false;
    wakeup = record { from_guard = []; result = all_events_handled };
  }

  pub turns-blocking :
      (n ticks : ℕ)
      → turns (repeat n quiet) (record { idle_spins = max_idle_spins; signal_ticks = ticks })
        ≡ repeat n waited
  unfolding turns turn take take_nothing wait_for_wakeup any is_termination and_then quiet
  turns-blocking zero ticks = refl
  turns-blocking (suc n) ticks = ap (λ r. waited ∷ r) (turns-blocking n ticks)

  turns-spinning :
      (left idle n ticks : ℕ)
      → idle + left ≡ max_idle_spins
      → turns
          (repeat left quiet ++ repeat n quiet)
          (record { idle_spins = idle; signal_ticks = ticks })
        ≡ repeat left yielded ++ repeat n waited
  unfolding turns turn take take_nothing wait_for_wakeup any is_termination and_then quiet
  turns-spinning zero idle n ticks h =
      let same : idle ≡ max_idle_spins = omega arith in
      subst
        (λ i.
          turns (repeat n quiet) (record { idle_spins = i; signal_ticks = ticks })
          ≡ repeat n waited)
        (sym same) (turns-blocking n ticks)
  turns-spinning (suc left) idle n ticks h =
      go (turns-spinning left (idle + 1) n ticks (omega arith)) (ltb idle max_idle_spins)
        (ground arith)
    where
      go :
          turns
              (repeat left quiet ++ repeat n quiet)
              (record { idle_spins = idle + 1; signal_ticks = ticks })
            ≡ repeat left yielded ++ repeat n waited
          → (b : Bool) → b ≡ true
          → and_then
              (λ c'. turns (repeat left quiet ++ repeat n quiet) c')
              (if b
                then (yielded ∷ [], some (record { idle_spins = idle + 1; signal_ticks = ticks }))
                else (
                  waited ∷ [],
                  some (record { idle_spins = max_idle_spins; signal_ticks = ticks }),
                ))
            ≡ yielded ∷ (repeat left yielded ++ repeat n waited)
      go rec true e = ap (λ r. yielded ∷ r) rec
      go rec false e = cc

  -- An idle channel is polled 2,000 times, and from then on every turn blocks.
  pub run_receive_loop-idle :
      (n : ℕ)
      → run_receive_loop true true (repeat 2000 quiet ++ repeat n quiet)
        ≡ repeat 2000 yielded ++ repeat n waited
  unfolding run_receive_loop
  run_receive_loop-idle n = turns-spinning 2000 0 n 0 refl
