-- ===== src/Rx/Utility/Delay.antt =====
-- utility.rs: `delay`. A poll takes place at one instant. The timer in `sleep` is armed for the
-- head of the queue and fires at its deadline, so that it is told by the queue.
pub mod Drained
use ice_rpc.Common.{
  ◌≡◌, refl, ap, sym, ◌∙◌, ℕ, ◌+◌, ◌-◌, ◌==◌, leb, Bool, true, false, none, some, List, [], ◌∷◌,
  ◌++◌, map, if◌then◌else◌, subst,
}
use ice_rpc.Rx.Event.{Event}
use ice_rpc.Rx.Stream.{pending, ready, Script}
use ice_rpc.Rx.Polls.{Answer, polls_with, polls_after}

-- DELAY_READ_AHEAD.
abbrev pub delay_read_ahead : ℕ
delay_read_ahead = 64

module _ {ℓ} {A : Type ℓ} where
  nothing_after : (xs ys : List A) → xs ++ ys ≡ [] → ys ≡ []
  nothing_after [] ys h = h
  nothing_after (x ∷ xs) ys h = cc

module _ {ℓ κ} (T : Type ℓ) (E : Type κ) where
  -- Events read ahead, with the instants of their release.
  abbrev pub Queue : Type (ℓ ⊔ κ)
  Queue = List (ℕ × Event T E)

  pub record Delay : Type (ℓ ⊔ κ) where
    pub source : Script T E
    pub queue : List (ℕ × Event T E)
    pub source_finished : Bool

module _ {ℓ κ} {T : Type ℓ} {E : Type κ} where
  abbrev pub state : Queue T E → Bool → Script T E → Delay T E
  state q finished s = record { source = s; queue = q; source_finished = finished }

  -- The head of the queue is released at its deadline; behind an empty queue a finished source
  -- ends the stream; otherwise the round goes on.
  pub release_head :
      ℕ → Queue T E → Bool → Script T E → Answer T E × Delay T E → Answer T E × Delay T E
  release_head now ((deadline, e) ∷ q) finished s rest =
      if leb deadline now then (ready (some e), state q finished s) else rest
  release_head now [] true s rest = (ready none, state [] true s)
  release_head now [] false s rest = rest

  -- The rounds of one poll while the source is not finished; `room` events may still be read.
  pub delay_loop : ℕ → ℕ → ℕ → Queue T E → Script T E → Answer T E × Delay T E
  unfolding release_head
  delay_loop duration now room q [] = release_head now q false [] (
      if room == 0
      then (pending, state q false [])
      else release_head now q true [] (pending, state q true []))
  delay_loop duration now room q (pending ∷ s) =
      release_head now q false (pending ∷ s)
        (pending, if room == 0 then state q false (pending ∷ s) else state q false s)
  delay_loop duration now room q (ready e ∷ s) =
      let rest = delay_loop duration now (room - 1) (q ++ (now + duration, e) ∷ []) s in
      release_head now q false (ready e ∷ s)
        (if room == 0 then (pending, state q false (ready e ∷ s)) else rest)

  pub poll_delay : ℕ → ℕ → Delay T E → Answer T E × Delay T E
  unfolding delay_loop release_head
  poll_delay duration now d =
      if d.source_finished
      then release_head now d.queue true d.source (pending, d)
      else delay_loop duration now delay_read_ahead d.queue d.source

  -- What a consumer gets that polls at these instants.
  unfoldable pub delay : List ℕ → ℕ → Script T E → Script T E
  unfolding poll_delay polls_with
  delay instants duration s = polls_with instants (poll_delay duration) (state [] false s)

  -- The events of a script, and those of a state that are not released yet.
  abbrev pub events : Script T E → List (Event T E)
  events [] = []
  events (pending ∷ s) = events s
  events (ready e ∷ s) = e ∷ events s

  abbrev pub held : Delay T E → List (Event T E)
  held d = map (λ q. q.1) d.queue ++ events d.source

  -- The state behind the polls at these instants.
  abbrev pub delayed_after : List ℕ → ℕ → Delay T E → Delay T E
  delayed_after [] duration d = d
  delayed_after (now ∷ instants) duration d =
      delayed_after instants duration (poll_delay duration now d).1

  -- What an answer gives, before what it leaves; the end leaves nothing.
  Accounts : List (Event T E) → Answer T E × Delay T E → Type (ℓ ⊔ κ)
  Accounts all (pending, d) = held d ≡ all
  Accounts all (ready (some e), d) = e ∷ held d ≡ all
  Accounts all (ready none, d) = (held d ≡ all) × (all ≡ [])

  -- A finished source has nothing left.
  abbrev Finished : Delay T E → Type (ℓ ⊔ κ)
  Finished d = d.source_finished ≡ true → d.source ≡ []

  Good : List (Event T E) → Answer T E × Delay T E → Type (ℓ ⊔ κ)
  Good all r = Accounts all r × Finished r.1

  release_head-Good :
      (now : ℕ) (q : Queue T E) (finished : Bool) (s : Script T E) (rest : Answer T E × Delay T E)
      → (finished ≡ true → s ≡ [])
      → Good (map (λ e. e.1) q ++ events s) rest
      → Good (map (λ e. e.1) q ++ events s) (release_head now q finished s rest)
  unfolding release_head Good Accounts
  release_head-Good now ((deadline, e) ∷ q) finished s rest f g = go (leb deadline now)
    where
      go :
          (b : Bool)
          → Good
              (e ∷ map (λ x. x.1) q ++ events s)
              (if b then (ready (some e), state q finished s) else rest)
      go true = (refl, f)
      go false = g
  release_head-Good now [] true s rest f g = ((refl, ap events (f refl)), f)
  release_head-Good now [] false s rest f g = g

  push-held :
      (q : Queue T E) (x : ℕ × Event T E) (es : List (Event T E))
      → map (λ e. e.1) (q ++ x ∷ []) ++ es ≡ map (λ e. e.1) q ++ x.1 ∷ es
  push-held [] x es = refl
  push-held (y ∷ q) x es = ap (◌∷◌ y.1) (push-held q x es)

  delay_loop-Good :
      (duration now room : ℕ) (q : Queue T E) (s : Script T E)
      → Good (map (λ e. e.1) q ++ events s) (delay_loop duration now room q s)
  unfolding delay_loop Good Accounts
  delay_loop-Good duration now room q [] =
      release_head-Good now q false [] _ (λ h. cc) (go (room == 0))
    where
      go :
          (b : Bool)
          → Good (map (λ e. e.1) q ++ []) (
              if b
              then (pending, state q false [])
              else release_head now q true [] (pending, state q true []))
      go true = (refl, λ h. refl)
      go false = release_head-Good now q true [] _ (λ h. refl) (refl, λ h. refl)
  delay_loop-Good duration now room q (pending ∷ s) =
      release_head-Good now q false (pending ∷ s) _ (λ h. cc) (go (room == 0))
    where
      go :
          (b : Bool)
          → Good
              (map (λ e. e.1) q ++ events s)
              (pending, if b then state q false (pending ∷ s) else state q false s)
      go true = (refl, λ h. cc)
      go false = (refl, λ h. cc)
  delay_loop-Good duration now room q (ready e ∷ s) =
      release_head-Good now q false (ready e ∷ s) _ (λ h. cc)
        (go (room == 0) (
          subst
            (λ all. Good all (delay_loop duration now (room - 1) (q ++ (now + duration, e) ∷ []) s))
            (push-held q (now + duration, e) (events s))
            (delay_loop-Good duration now (room - 1) (q ++ (now + duration, e) ∷ []) s)))
    where
      go :
          (b : Bool)
          → Good
              (map (λ x. x.1) q ++ e ∷ events s)
              (delay_loop duration now (room - 1) (q ++ (now + duration, e) ∷ []) s)
          → Good (map (λ x. x.1) q ++ e ∷ events s) (
              if b
              then (pending, state q false (ready e ∷ s))
              else delay_loop duration now (room - 1) (q ++ (now + duration, e) ∷ []) s)
      go true g = (refl, λ h. cc)
      go false g = g

  poll_delay-Good :
      (duration now : ℕ) (d : Delay T E) → Finished d → Good (held d) (poll_delay duration now d)
  unfolding poll_delay Good Accounts
  poll_delay-Good duration now d f = go d.source_finished f
    where
      go :
          (b : Bool)
          → (b ≡ true → d.source ≡ [])
          → Good (held d) (
              if b
              then release_head now d.queue true d.source (pending, d)
              else delay_loop duration now delay_read_ahead d.queue d.source)
      go true g = release_head-Good now d.queue true d.source (pending, d) g (refl, f)
      go false g = delay_loop-Good duration now delay_read_ahead d.queue d.source

  poll_delay-Finished :
      (duration now : ℕ) (d : Delay T E) → Finished d → Finished (poll_delay duration now d).1
  unfolding Good
  poll_delay-Finished duration now d f = (poll_delay-Good duration now d f).1

  accounted :
      (instants : List ℕ) (duration : ℕ) (d : Delay T E)
      → Finished d
      → events (polls_with instants (poll_delay duration) d)
          ++ held (delayed_after instants duration d)
        ≡ held d
  unfolding polls_with polls_after Accounts Good
  accounted [] duration d f = refl
  accounted (now ∷ instants) duration d f =
      let (counts, f') = poll_delay-Good duration now d f in
      go (poll_delay duration now d) counts (accounted instants duration _ f')
    where
      go :
          (r : Answer T E × Delay T E)
          → Accounts (held d) r
          → events (polls_with instants (poll_delay duration) r.1)
              ++ held (delayed_after instants duration r.1)
            ≡ held r.1
          → events (polls_after r.0 (polls_with instants (poll_delay duration) r.1))
              ++ held (delayed_after instants duration r.1)
            ≡ held d
      go (pending, d') a ih = ih ∙ a
      go (ready (some e), d') a ih = ap (◌∷◌ e) ih ∙ a
      go (ready none, d') (a, nil) ih =
          nothing_after (events (polls_with instants (poll_delay duration) d')) _ (ih ∙ a ∙ nil)
          ∙ sym nil

  -- At whatever instants a consumer polls, `delay` gives the events of its source once each and in
  -- order: what it has given, followed by what it still holds and what its source still has, is
  -- what the source had, and an end of the stream leaves nothing behind.
  pub delay-accounts :
      (instants : List ℕ) (duration : ℕ) (s : Script T E)
      → events (delay instants duration s)
          ++ held (delayed_after instants duration (state [] false s))
        ≡ events s
  unfolding delay
  delay-accounts instants duration s = accounted instants duration (state [] false s) (λ h. cc)
