-- ===== src/Rx/Utility/Delay/Drained.antt =====
-- utility.rs: `delay` gives every event to a consumer that polls often enough and slowly enough.
use ice_rpc.Common.{
  ◌≡◌, refl, ap, sym, ◌∙◌, ℕ, suc, ◌+◌, ◌-◌, ◌*◌, ◌==◌, ◌≤◌, leb, Bool, true, false, some, List, [],
  ◌∷◌, ◌++◌, append-nil, length, if◌then◌else◌, subst, arith, if_of_true,
}
use ice_rpc.Rx.Event.{Event}
use ice_rpc.Rx.Stream.{pending, ready, Script}
use ice_rpc.Rx.Polls.{Answer}
use ice_rpc.Rx.Utility.Delay.{
  Queue, Delay, state, delay, delay_read_ahead, release_head, delay_loop, poll_delay, events, held,
  delayed_after, delay-accounts, poll_delay-Finished,
}

-- The polls are at least the delay apart.
abbrev pub IsSpaced : ℕ → List ℕ → Type 0
IsSpaced duration [] = Unit
IsSpaced duration (a ∷ []) = Unit
IsSpaced duration (a ∷ b ∷ instants) = a + duration ≤ b × IsSpaced duration (b ∷ instants)

module _ {ℓ κ} {T : Type ℓ} {E : Type κ} where
  abbrev DueBy : ℕ → Queue T E → Type 0
  DueBy bound [] = Unit
  DueBy bound ((deadline, e) ∷ q) = deadline ≤ bound × DueBy bound q

  abbrev work : Delay T E → ℕ
  work d = length d.queue + 2 * length d.source

  DueBy-later : (a b : ℕ) (q : Queue T E) → a ≤ b → DueBy a q → DueBy b q
  DueBy-later a b [] h d = tt
  DueBy-later a b ((deadline, e) ∷ q) h (due, d) = (omega arith, DueBy-later a b q h d)

  DueBy-push :
      (bound deadline : ℕ) (e : Event T E) (q : Queue T E)
      → deadline ≤ bound
      → DueBy bound q
      → DueBy bound (q ++ (deadline, e) ∷ []) × (length (q ++ (deadline, e) ∷ []) ≡ suc (length q))
  DueBy-push bound deadline e [] h d = ((h, tt), refl)
  DueBy-push bound deadline e (x ∷ q) h (due, d) =
      let (d', l) = DueBy-push bound deadline e q h d in ((due, d'), ap suc l)

  -- What a poll leaves is no more work, and all of it due by the bound.
  abbrev Within : ℕ → ℕ → Delay T E → Type 0
  Within bound most d = DueBy bound d.queue × (work d ≤ most)

  release_head-Within :
      (bound most now : ℕ) (q : Queue T E) (finished : Bool) (s : Script T E)
      (rest : Answer T E × Delay T E)
      → Within bound most (state q finished s)
      → Within bound most rest.1
      → Within bound most (release_head now q finished s rest).1
  unfolding release_head
  release_head-Within bound most now ((deadline, e) ∷ q) finished s rest ((due, d), w) r =
      go (leb deadline now)
    where
      go :
          (b : Bool)
          → Within bound most (if b then (ready (some e), state q finished s) else rest).1
      go true = (d, omega arith)
      go false = r
  release_head-Within bound most now [] true s rest w r = w
  release_head-Within bound most now [] false s rest w r = r

  delay_loop-Within :
      (duration now room : ℕ) (q : Queue T E) (s : Script T E)
      → DueBy (now + duration) q
      → Within (now + duration) (length q + 2 * length s) (delay_loop duration now room q s).1
  unfolding delay_loop
  delay_loop-Within duration now room q [] d =
      release_head-Within (now + duration) _ now q false [] _ (d, omega arith) (go (room == 0))
    where
      go :
          (b : Bool)
          → Within
              (now + duration)
              (length q + 2 * 0)
              (if b
                then (pending, state q false [])
                else release_head now q true [] (pending, state q true [])).1
      go true = (d, omega arith)
      go false =
          release_head-Within (now + duration) _ now q true [] (pending, state q true [])
            (d, omega arith) (d, omega arith)
  delay_loop-Within duration now room q (pending ∷ s) d =
      release_head-Within (now + duration) _ now q false (pending ∷ s) _ (d, omega arith)
        (go (room == 0))
    where
      go :
          (b : Bool)
          → Within
              (now + duration)
              (length q + 2 * suc (length s))
              (if b then state q false (pending ∷ s) else state q false s)
      go true = (d, omega arith)
      go false = (d, omega arith)
  delay_loop-Within duration now room q (ready e ∷ s) d =
      let (d', l) = DueBy-push (now + duration) (now + duration) e q (omega arith) d in
      let (r, w) = delay_loop-Within duration now (room - 1) (q ++ (now + duration, e) ∷ []) s d' in
      release_head-Within (now + duration) _ now q false (ready e ∷ s) _ (d, omega arith)
        (go (room == 0) (r, omega arith))
    where
      go :
          (b : Bool)
          → Within
              (now + duration)
              (length q + 2 * suc (length s))
              (delay_loop duration now (room - 1) (q ++ (now + duration, e) ∷ []) s).1
          → Within
              (now + duration)
              (length q + 2 * suc (length s))
              (if b
                then (pending, state q false (ready e ∷ s))
                else delay_loop duration now (room - 1) (q ++ (now + duration, e) ∷ []) s).1
      go true r = (d, omega arith)
      go false r = r

  release_head-due :
      (now deadline : ℕ) (e : Event T E) (q : Queue T E) (finished : Bool) (s : Script T E)
      (rest : Answer T E × Delay T E)
      → deadline ≤ now
      → release_head now ((deadline, e) ∷ q) finished s rest ≡ (ready (some e), state q finished s)
  unfolding release_head
  release_head-due now deadline e q finished s rest due =
      if_of_true (leb deadline now) _ _ (ground arith)

  poll_delay-due :
      (duration now deadline : ℕ) (e : Event T E) (q : Queue T E) (finished : Bool) (s : Script T E)
      → deadline ≤ now
      → poll_delay duration now (state ((deadline, e) ∷ q) finished s)
        ≡ (ready (some e), state q finished s)
  unfolding poll_delay delay_loop
  poll_delay-due duration now deadline e q true s due =
      release_head-due now deadline e q true s _ due
  poll_delay-due duration now deadline e q false [] due =
      release_head-due now deadline e q false [] _ due
  poll_delay-due duration now deadline e q false (pending ∷ s) due =
      release_head-due now deadline e q false (pending ∷ s) _ due
  poll_delay-due duration now deadline e q false (ready x ∷ s) due =
      release_head-due now deadline e q false (ready x ∷ s) _ due

  -- With all that is queued due, a poll does some of the work that is left.
  poll_delay-progress :
      (duration now : ℕ) (q : Queue T E) (finished : Bool) (s : Script T E)
      → DueBy now q
      → (finished ≡ true → s ≡ [])
      → Within
          (now + duration)
          (work (state q finished s) - 1)
          (poll_delay duration now (state q finished s)).1
  unfolding poll_delay release_head delay_loop
  poll_delay-progress duration now ((deadline, e) ∷ q) finished s (due, d) f =
      subst (λ r. Within (now + duration) (work (state ((deadline, e) ∷ q) finished s) - 1) r.1)
        (sym (poll_delay-due duration now deadline e q finished s due))
        (DueBy-later now (now + duration) q (omega arith) d, omega arith)
  poll_delay-progress duration now [] true s d f =
      let none_left : length s ≡ 0 = ap length (f refl) in (tt, omega arith)
  poll_delay-progress duration now [] false [] d f = (tt, omega arith)
  poll_delay-progress duration now [] false (pending ∷ s) d f = (tt, omega arith)
  poll_delay-progress duration now [] false (ready x ∷ s) d f =
      let (r, w) =
        delay_loop-Within duration now (delay_read_ahead - 1) ((now + duration, x) ∷ []) s
          (omega arith, tt) in
      (r, omega arith)

  held_none :
      (q : Queue T E) (finished : Bool) (s : Script T E)
      → work (state q finished s) ≡ 0
      → held (state q finished s) ≡ []
  held_none [] finished [] h = refl
  held_none [] finished (x ∷ s) h = absurd (omega arith)
  held_none (x ∷ q) finished s h = absurd (omega arith)

  abbrev DueFirst : List ℕ → Queue T E → Type 0
  DueFirst [] q = Unit
  DueFirst (now ∷ instants) q = DueBy now q

  drained :
      (duration : ℕ) (instants : List ℕ) (d : Delay T E)
      → IsSpaced duration instants
      → DueFirst instants d.queue
      → (d.source_finished ≡ true → d.source ≡ [])
      → work d ≤ length instants
      → held (delayed_after instants duration d) ≡ []
  drained duration [] d spaced due f h = held_none d.queue d.source_finished d.source (omega arith)
  drained duration (now ∷ []) d spaced due f h =
      let (due', w) = poll_delay-progress duration now d.queue d.source_finished d.source due f in
      let d' : Delay T E = (poll_delay duration now d).1 in
      held_none d'.queue d'.source_finished d'.source (omega arith)
  drained duration (now ∷ next ∷ instants) d (apart, spaced) due f h =
      let (due', w) = poll_delay-progress duration now d.queue d.source_finished d.source due f in
      let d' : Delay T E = (poll_delay duration now d).1 in
      drained duration (next ∷ instants) d' spaced
        (DueBy-later (now + duration) next d'.queue apart due')
        (poll_delay-Finished duration now d f) (omega arith)

  -- A consumer that polls at instants at least the delay apart, twice as often as the source has
  -- answers, gets all the events of the source, each once and in order.
  pub delay-events :
      (duration : ℕ) (instants : List ℕ) (s : Script T E)
      → IsSpaced duration instants
      → 2 * length s ≤ length instants
      → events (delay instants duration s) ≡ events s
  delay-events duration instants s spaced h =
      let all = delay-accounts instants duration s in
      let none_held =
        drained duration instants (state [] false s) spaced (start instants) (λ g. cc)
          (omega arith) in
      sym (append-nil (events (delay instants duration s)))
      ∙ ap (λ rest. events (delay instants duration s) ++ rest) (sym none_held)
      ∙ all
    where
      start : (instants : List ℕ) → DueFirst instants []
      start [] = tt
      start (now ∷ instants) = tt
