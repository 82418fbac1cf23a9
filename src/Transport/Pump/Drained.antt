-- ===== src/Transport/Pump/Drained.antt =====
-- pump.rs: which of the received samples the loop handles.
use ice_rpc.Common.{
  ℕ, ◌+◌, ◌%◌, ◌^◌, ◌≡◌, refl, ap, sym, ◌∙◌, Bool, true, false, List, [], ◌∷◌, ◌++◌, if◌then◌else◌,
  ltb, none, some, ◌&&◌, ◌==◌, append-nil,
}
use ice_rpc.Transport.Pump.{
  Turn, Did, Counters, Wakeup, Received, nothing, yielded, waited, sample, failed, handled,
  request_shutdown, max_idle_spins, signal_check_samples, turns, turn, take, take_nothing,
  take_sample, wait_for_wakeup, and_then, run_receive_loop,
}

module _ {ℓ} {S : Type ℓ} where
  -- The samples that the handler was given.
  abbrev pub handled_in : List (Did S) → List S
  handled_in [] = []
  handled_in (handled s ∷ ds) = s ∷ handled_in ds
  handled_in (_ ∷ ds) = handled_in ds

  abbrev pub received_of : Received S → List S → List S
  received_of (sample s) rest = s ∷ rest
  received_of _ rest = rest

  -- The samples that the subscriber gave before the loop was stopped.
  abbrev pub received_in : List (Turn S) → List S
  received_in [] = []
  received_in (t ∷ ts) = if t.stopped then [] else received_of t.received (received_in ts)

  -- No turn finds that the process is asked to terminate.
  abbrev pub IsUndisturbed : List (Turn S) → Type 0
  IsUndisturbed [] = Unit
  IsUndisturbed (t ∷ ts) = (t.termination_requested ≡ false) × IsUndisturbed ts

  -- An empty turn handles nothing and leaves the tick counter.
  pub take_nothing-handled :
      (w : Wakeup) (c : Counters) (rest : Counters → List (Did S))
      → (c' : Counters) × (c'.signal_ticks ≡ c.signal_ticks)
        × (handled_in (and_then rest (take_nothing w c)) ≡ handled_in (rest c'))
  unfolding and_then take_nothing
  take_nothing-handled w c rest = go (ltb c.idle_spins max_idle_spins) (wait_for_wakeup w)
    where
      waiting :
          (asked : Bool) (c' : Counters)
          → handled_in ((waited ∷ (if asked then request_shutdown ∷ [] else [])) ++ rest c')
            ≡ handled_in (rest c')
      waiting true c' = refl
      waiting false c' = refl

      go :
          (b : Bool) (p : Bool × Bool)
          → (c' : Counters) × (c'.signal_ticks ≡ c.signal_ticks)
            × (handled_in (
                  and_then rest (
                    if b
                    then (yielded ∷ [], some (record c { idle_spins = c.idle_spins + 1 }))
                    else (
                      waited ∷ (if p.1 then request_shutdown ∷ [] else []),
                      some (record c { idle_spins = if p.0 then 0 else max_idle_spins }),
                    )))
                ≡ handled_in (rest c'))
      go true p = (record c { idle_spins = c.idle_spins + 1 }, refl, refl)
      go false p =
          (_, refl, waiting p.1 (record c { idle_spins = if p.0 then 0 else max_idle_spins }))

  -- What is handled is the start of what is received, and all of it when `Quiet` holds.
  abbrev StartsAll : List S → List S → Type 0 → Type ℓ
  StartsAll did received Quiet = (lost : List S) × (did ++ lost ≡ received) × (Quiet → lost ≡ [])

  sample-handled :
      (s : S) (behind : Counters) (rest : Counters → List (Did S)) (received : List S)
      (checked asked : Bool) (Quiet : Type 0)
      → StartsAll (handled_in (rest behind)) received Quiet
      → StartsAll
          (handled_in (
            and_then rest (
              if checked && asked
              then (request_shutdown ∷ [], none)
              else (handled s ∷ [], some behind))))
          (s ∷ received)
          ((asked ≡ false) × Quiet)
  unfolding and_then
  sample-handled s behind rest received true true Quiet h = (s ∷ received, refl, λ q. cc)
  sample-handled s behind rest received true false Quiet (lost, eq, all) =
      (lost, ap (λ r. s ∷ r) eq, λ q. all q.1)
  sample-handled s behind rest received false asked Quiet (lost, eq, all) =
      (lost, ap (λ r. s ∷ r) eq, λ q. all q.1)

  take-handled :
      (r : Received S) (asked : Bool) (w : Wakeup) (c : Counters) (rest : Counters → List (Did S))
      (received : List S) (Quiet : Type 0)
      → ((c' : Counters) → StartsAll (handled_in (rest c')) received Quiet)
      → StartsAll
          (handled_in (and_then rest (take r asked w c)))
          (received_of r received)
          ((asked ≡ false) × Quiet)
  unfolding and_then take take_sample
  take-handled (sample s) asked w c rest received Quiet h =
      let ticks : ℕ = (c.signal_ticks + 1) % 2 ^ 32 in
      let behind : Counters = record { idle_spins = 0; signal_ticks = ticks } in
      sample-handled s behind rest received (ticks % signal_check_samples == 0) asked Quiet
        (h behind)
  take-handled nothing asked w c rest received Quiet h =
      let (c', same, eq) = take_nothing-handled w c rest in
      let (lost, all, quiet) = h c' in (lost, ap (λ ds. ds ++ lost) eq ∙ all, λ q. quiet q.1)
  take-handled failed asked w c rest received Quiet h =
      let (lost, all, quiet) = h (record c { idle_spins = 0 }) in (lost, all, λ q. quiet q.1)

  turn-handled :
      (stop : Bool) (r : Received S) (asked : Bool) (w : Wakeup) (c : Counters)
      (rest : Counters → List (Did S)) (received : List S) (Quiet : Type 0)
      → ((c' : Counters) → StartsAll (handled_in (rest c')) received Quiet)
      → StartsAll
          (handled_in (and_then rest (if stop then ([], none) else take r asked w c)))
          (if stop then [] else received_of r received)
          ((asked ≡ false) × Quiet)
  unfolding and_then
  turn-handled true r asked w c rest received Quiet h = ([], refl, λ q. refl)
  turn-handled false r asked w c rest received Quiet h =
      take-handled r asked w c rest received Quiet h

  turns-handled :
      (ts : List (Turn S)) (c : Counters)
      → StartsAll (handled_in (turns ts c)) (received_in ts) (IsUndisturbed ts)
  unfolding turns turn
  turns-handled [] c = ([], refl, λ q. refl)
  turns-handled (t ∷ ts) c =
      turn-handled t.stopped t.received t.termination_requested t.wakeup c (λ c'. turns ts c')
        (received_in ts) (IsUndisturbed ts) (λ c'. turns-handled ts c')

  -- What the loop handles is the start of what it receives before it is stopped, in that order.
  pub run_receive_loop-prefix :
      (ts : List (Turn S))
      → (lost : List S) × (handled_in (run_receive_loop true true ts) ++ lost ≡ received_in ts)
  unfolding run_receive_loop
  run_receive_loop-prefix ts =
      let (lost, eq, all) = turns-handled ts (record { idle_spins = 0; signal_ticks = 0 }) in
      (lost, eq)

  -- While the process is not asked to terminate, the loop hands over every sample that it receives
  -- before it is stopped, in that order, whatever fails or blocks between them.
  pub run_receive_loop-handled :
      (ts : List (Turn S))
      → IsUndisturbed ts
      → handled_in (run_receive_loop true true ts) ≡ received_in ts
  unfolding run_receive_loop
  run_receive_loop-handled ts h =
      let (lost, eq, all) = turns-handled ts (record { idle_spins = 0; signal_ticks = 0 }) in
      sym (append-nil _)
      ∙ ap (λ l. handled_in (run_receive_loop true true ts) ++ l) (sym (all h))
      ∙ eq
