-- ===== src/Rx/Subject/Hears.antt =====
-- subject.rs: what a subscriber hears, over any sequence of operations.
use ice_rpc.Common.{
  ◌≡◌, refl, ap, sym, subst, ◌∙◌, ℕ, ◌+◌, ◌<◌, ◌==◌, ==_refl, true, false, Option, none, some, List,
  [], ◌∷◌, ◌++◌, append_assoc, append-nil, map, if◌then◌else◌, All, All-append, Bool-cases, inl,
  inr, arith,
}
use ice_rpc.Rx.Event.{Event, business}
use ice_rpc.Rx.Subject
use ice_rpc.Rx.Subject.{
  Channel, State, with_replay, is_terminated, retain_live, is_live, terminal_event, send_event,
  to_list, replayed, subscribe, close_if, drop_stream,
}
use ice_rpc.Rx.Subject.Replay.{last_values}
use ice_rpc.Rx.Subject.Runs.{
  Op, run, emitted, values_of, terminal_of, Keeps, live, subscribe-replays,
}

module _ {ℓ κ} {T : Type ℓ} {E : Type κ} where
  abbrev pub find : ℕ → List (Channel T E) → Option (Channel T E)
  find id [] = none
  find id (c ∷ cs) = let rest = find id cs in if c.id == id then some c else rest

  find-append :
      (id : ℕ) (c : Channel T E) (cs ds : List (Channel T E))
      → find id cs ≡ some c
      → find id (cs ++ ds) ≡ some c
  find-append id c [] ds h = cc
  find-append id c (d ∷ cs) ds h = elim (Bool-cases (d.id == id)) [
    | inl e ↦ rw e (rw e at h)
    | inr e ↦ rw e (find-append id c cs ds (rw e at h))
  ]

  -- A channel behind those of other subscribers.
  find-other :
      (id : ℕ) (cs ds : List (Channel T E))
      → All (λ c. c.id < id) cs
      → find id (cs ++ ds) ≡ find id ds
  find-other id [] ds h = refl
  find-other id (c ∷ cs) ds h =
      let other : (c.id == id) ≡ false = ground (arith, h.0) in rw other (find-other id cs ds h.1)

  abbrev heard : Event T E → Channel T E → Channel T E
  heard e c = record c { sent = c.sent ++ e ∷ [] }

  -- A broadcast reaches every open channel.
  find-broadcast :
      (id : ℕ) (e : Event T E) (c : Channel T E) (cs : List (Channel T E))
      → c.is_closed ≡ false
      → find id cs ≡ some c
      → find id (map (send_event e) (retain_live cs)) ≡ some (heard e c)
  unfolding send_event retain_live is_live
  find-broadcast id e c [] active h = cc
  find-broadcast id e c (d ∷ cs) active h = ground (arith, find-broadcast id e c cs active)

  find-close :
      (id other : ℕ) (c : Channel T E) (cs : List (Channel T E))
      → (other == id) ≡ false
      → find id cs ≡ some c
      → find id (map (close_if other) cs) ≡ some c
  find-close id other c [] apart h = cc
  find-close id other c (d ∷ cs) apart h = ground (arith, find-close id other c cs apart)

  -- A terminated subject sends nothing more.
  ended_hears :
      (ops : List (Op T E)) (id : ℕ) (c : Channel T E) (s : State T E)
      → is_terminated s ≡ true
      → find id s.subscribers ≡ some c
      → All (Keeps id) ops
      → find id (run ops s).subscribers ≡ some c
  unfolding is_terminated subscribe Subject.next Subject.complete Subject.error drop_stream
  ended_hears [] id c s h f k = f
  ended_hears (Op.subscribes ∷ ops) id c s h f k =
      simp h (ended_hears ops id c (record s { issued = s.issued + 1 }) h f k.1)
  ended_hears (Op.emits v ∷ ops) id c s h f k = simp h (ended_hears ops id c s h f k.1)
  ended_hears (Op.completes ∷ ops) id c s h f k = simp h (ended_hears ops id c s h f k.1)
  ended_hears (Op.fails e ∷ ops) id c s h f k = simp h (ended_hears ops id c s h f k.1)
  ended_hears (Op.drops other ∷ ops) id c s h f k =
      ended_hears ops id c (record s { subscribers = map (close_if other) s.subscribers }) h
        (find-close id other c s.subscribers k.0 f) k.1

  abbrev heard_all : List (Event T E) → Channel T E → Channel T E
  heard_all es c = record c { sent = c.sent ++ es }

  -- An open channel receives each event that is emitted, in order, and nothing else.
  hears :
      (ops : List (Op T E)) (id : ℕ) (c : Channel T E) (r : List T) (capacity : ℕ)
      (cs : List (Channel T E)) (n : ℕ)
      → c.is_closed ≡ false
      → find id cs ≡ some c
      → All (Keeps id) ops
      → find id (run ops (live r capacity cs n)).subscribers ≡ some (heard_all (emitted ops) c)
  unfolding subscribe Subject.next Subject.complete Subject.error drop_stream is_terminated
  hears [] id c r capacity cs n o f k =
      f ∙ ap some (ap (λ es. record c { sent = es }) (sym (append-nil c.sent)))
  hears (Op.subscribes ∷ ops) id c r capacity cs n o f k =
      hears ops id c r capacity (cs ++ _ ∷ []) (n + 1) o (find-append id c cs _ f) k.1
  hears (Op.emits v ∷ ops) id c r capacity cs n o f k =
      hears ops id (heard (Event.next v) c) _ capacity _ n o (find-broadcast id _ c cs o f) k.1
      ∙ ap some (
          ap (λ es. record c { sent = es }) (append_assoc c.sent (Event.next v ∷ []) (emitted ops)))
  hears (Op.completes ∷ ops) id c r capacity cs n o f k =
      ended_hears ops id (heard Event.complete c) _ refl (find-broadcast id _ c cs o f) k.1
  hears (Op.fails e ∷ ops) id c r capacity cs n o f k =
      ended_hears ops id (heard (Event.error (business e)) c) _ refl (find-broadcast id _ c cs o f)
        k.1
  hears (Op.drops other ∷ ops) id c r capacity cs n o f k =
      hears ops id c r capacity (map (close_if other) cs) n o (find-close id other c cs k.0 f) k.1

  abbrev AllBelow : ℕ → List (Channel T E) → Type 0
  AllBelow n cs = All (λ c. c.id < n) cs

  AllBelow-broadcast :
      (n : ℕ) (e : Event T E) (cs : List (Channel T E))
      → AllBelow n cs
      → AllBelow n (map (send_event e) (retain_live cs))
  unfolding send_event retain_live is_live
  AllBelow-broadcast n e [] h = tt
  AllBelow-broadcast n e (c ∷ cs) h = elim (Bool-cases c.is_closed) [
    | inl closed ↦ simp closed (AllBelow-broadcast n e cs h.1)
    | inr active ↦ simp active (h.0, AllBelow-broadcast n e cs h.1)
  ]

  AllBelow-close :
      (n id : ℕ) (cs : List (Channel T E)) → AllBelow n cs → AllBelow n (map (close_if id) cs)
  AllBelow-close n id [] h = tt
  AllBelow-close n id (c ∷ cs) h = elim (Bool-cases (c.id == id)) [
    | inl e ↦ simp e (h.0, AllBelow-close n id cs h.1)
    | inr e ↦ simp e (h.0, AllBelow-close n id cs h.1)
  ]

  AllBelow-suc : (n : ℕ) (cs : List (Channel T E)) → AllBelow n cs → AllBelow (n + 1) cs
  AllBelow-suc n [] h = tt
  AllBelow-suc n (c ∷ cs) h = (omega (arith, h.0), AllBelow-suc n cs h.1)

  -- A subject that no operation ended, with channels whose ids it gave out.
  abbrev IsLive : ℕ → State T E → Type (ℓ ⊔ κ)
  IsLive capacity s =
      (r : List T) × (cs : List (Channel T E)) × (n : ℕ) × (s ≡ live r capacity cs n)
      × AllBelow n cs

  run-IsLive :
      (ops : List (Op T E)) (r : List T) (capacity : ℕ) (cs : List (Channel T E)) (n : ℕ)
      → terminal_of (emitted ops) ≡ none
      → AllBelow n cs
      → IsLive capacity (run ops (live r capacity cs n))
  unfolding subscribe Subject.next drop_stream is_terminated replayed
  run-IsLive [] r capacity cs n h b = (r, cs, n, refl, b)
  run-IsLive (Op.subscribes ∷ ops) r capacity cs n h b =
      run-IsLive ops r capacity (cs ++ replayed (live r capacity cs n) ∷ []) (n + 1) h
        (All-append (λ c. c.id < n + 1) cs _ (AllBelow-suc n cs b) (omega arith, tt))
  run-IsLive (Op.emits v ∷ ops) r capacity cs n h b =
      run-IsLive ops _ capacity _ n h (AllBelow-broadcast n (Event.next v) cs b)
  run-IsLive (Op.completes ∷ ops) r capacity cs n h b = cc
  run-IsLive (Op.fails e ∷ ops) r capacity cs n h b = cc
  run-IsLive (Op.drops id ∷ ops) r capacity cs n h b =
      run-IsLive ops r capacity (map (close_if id) cs) n h (AllBelow-close n id cs b)

  -- What the channel of a new subscriber of `s` holds after more operations.
  abbrev pub heard_after : List (Op T E) → State T E → Option (Channel T E)
  heard_after ops s = find s.issued (run ops (subscribe s).1).subscribers

  live_hears :
      (after : List (Op T E)) (capacity : ℕ) (s : State T E)
      → IsLive capacity s
      → All (Keeps s.issued) after
      → heard_after after s ≡ some (heard_all (emitted after) (subscribe s).0)
  unfolding subscribe is_terminated replayed
  live_hears after capacity s (r, cs, n, e, below) =
      subst
        (λ s.
          All (Keeps s.issued) after
          → heard_after after s ≡ some (heard_all (emitted after) (subscribe s).0))
        (sym e)
        (λ k.
          hears after n (replayed (live r capacity cs n)) r capacity
            (cs ++ replayed (live r capacity cs n) ∷ []) (n + 1) refl
            (find-other n cs _ below ∙ rw (==_refl n)) k)

  -- A subscriber that comes after operations none of which ended the subject, and that keeps its
  -- stream, has been sent by the end of any later operations: the last `capacity` values of those
  -- emitted before it came, and then each event emitted since, once, in order, up to the first
  -- terminal one, whatever other subscribers come, go or leave their streams unread.
  pub subscribe-heard_after :
      (before after : List (Op T E)) (capacity : ℕ)
      → terminal_of (emitted before) ≡ none
      → All (Keeps (run before (with_replay capacity)).issued) after
      → heard_after after (run before (with_replay capacity))
        ≡ some (record {
          id = (run before (with_replay capacity)).issued;
          sent =
              map Event.next (last_values capacity (values_of (emitted before))) ++ emitted after;
          is_closed = false;
        })
  unfolding with_replay subscribe replayed
  subscribe-heard_after before after capacity h k =
      let s : State T E = run before (with_replay capacity) in
      let kept : List (Event T E) =
        map Event.next (last_values capacity (values_of (emitted before))) in
      let first : (subscribe s).0.sent ≡ kept =
        subscribe-replays before capacity ∙ ap (λ t. kept ++ to_list t) h ∙ append-nil kept in
      live_hears after capacity s (run-IsLive before [] capacity [] 0 h tt) k
      ∙ ap (λ es. some (record { id = s.issued; sent = es ++ emitted after; is_closed = false }))
          first
