-- ===== src/Rx/Subject/Runs.antt =====
-- subject.rs: sequences of operations on a subject, and what a new subscriber finds after one.
use ice_rpc.Common.{
  ◌≡◌, refl, ap, sym, subst, ◌∙◌, ℕ, ◌+◌, ◌==◌, true, false, Option, none, some, List, [], ◌∷◌,
  ◌++◌, append_assoc, append-nil, map,
}
use ice_rpc.Rx.Event.{Event, business}
use ice_rpc.Rx.Subject
use ice_rpc.Rx.Subject.{
  Channel, State, with_replay, is_terminated, retain_live, is_live, terminal_event, ending, is_some,
  send_event, to_list, replayed, remember, subscribe, close_if, drop_stream,
}
use ice_rpc.Rx.Subject.Replay.{last_values, last_values-nil, remember-last_values}

module _ {ℓ κ} (T : Type ℓ) (E : Type κ) where
  pub data Op : Type (ℓ ⊔ κ) where
    subscribes : Op
    emits : T → Op
    completes : Op
    fails : E → Op
    drops : ℕ → Op

module _ {ℓ κ} {T : Type ℓ} {E : Type κ} where
  abbrev pub step : Op T E → State T E → State T E
  step Op.subscribes s = (subscribe s).1
  step (Op.emits v) s = Subject.next v s
  step Op.completes s = Subject.complete s
  step (Op.fails e) s = Subject.error e s
  step (Op.drops id) s = drop_stream id s

  abbrev pub run : List (Op T E) → State T E → State T E
  run [] s = s
  run (op ∷ ops) s = run ops (step op s)

  -- The specification: the events of a sequence of operations, up to its first terminal one.
  abbrev pub emitted : List (Op T E) → List (Event T E)
  emitted [] = []
  emitted (Op.subscribes ∷ ops) = emitted ops
  emitted (Op.emits v ∷ ops) = Event.next v ∷ emitted ops
  emitted (Op.completes ∷ ops) = Event.complete ∷ []
  emitted (Op.fails e ∷ ops) = Event.error (business e) ∷ []
  emitted (Op.drops id ∷ ops) = emitted ops

  abbrev pub values_of : List (Event T E) → List T
  values_of [] = []
  values_of (Event.next v ∷ es) = v ∷ values_of es
  values_of (Event.complete ∷ es) = values_of es
  values_of (Event.error e ∷ es) = values_of es

  abbrev pub terminal_of : List (Event T E) → Option (Event T E)
  terminal_of [] = none
  terminal_of (Event.next v ∷ es) = terminal_of es
  terminal_of (Event.complete ∷ es) = some Event.complete
  terminal_of (Event.error e ∷ es) = some (Event.error e)

  abbrev pub Keeps : ℕ → Op T E → Type 0
  Keeps id (Op.drops other) = (other == id) ≡ false
  Keeps id _ = Unit

  -- A terminated subject stays as it is but for the channels that are dropped.
  ended_stays :
      (ops : List (Op T E)) (s : State T E)
      → is_terminated s ≡ true
      → ((run ops s).replay ≡ s.replay) × (terminal_event (run ops s) ≡ terminal_event s)
  unfolding is_terminated terminal_event subscribe Subject.next Subject.complete Subject.error
      drop_stream
  ended_stays [] s h = (refl, refl)
  ended_stays (Op.subscribes ∷ ops) s h =
      simp h (ended_stays ops (record s { issued = s.issued + 1 }) h)
  ended_stays (Op.emits v ∷ ops) s h = simp h (ended_stays ops s h)
  ended_stays (Op.completes ∷ ops) s h = simp h (ended_stays ops s h)
  ended_stays (Op.fails e ∷ ops) s h = simp h (ended_stays ops s h)
  ended_stays (Op.drops id ∷ ops) s h =
      ended_stays ops (record s { subscribers = map (close_if id) s.subscribers }) h

  abbrev pub live : List T → ℕ → List (Channel T E) → ℕ → State T E
  live replay capacity subscribers issued = record {
    replay = replay;
    capacity = capacity;
    completed = false;
    error = none;
    subscribers = subscribers;
    issued = issued;
  }

  next_live :
      (v : T) (past : List T) (capacity : ℕ) (cs : List (Channel T E)) (n : ℕ)
      → Subject.next v (live (last_values capacity past) capacity cs n)
        ≡ live
            (last_values capacity (past ++ v ∷ []))
            capacity
            (map (send_event (Event.next v)) (retain_live cs))
            n
  unfolding Subject.next
  next_live v past capacity cs n =
      ap (λ r. live r capacity (map (send_event (Event.next v)) (retain_live cs)) n)
        (remember-last_values capacity past v)

  -- The buffer holds the last of these values, and the terminal event is that of these events.
  abbrev Records : ℕ → List T → List (Event T E) → State T E → Type (ℓ ⊔ κ)
  Records capacity past es s =
      (s.replay ≡ last_values capacity (past ++ values_of es)) × (terminal_event s ≡ terminal_of es)

  -- The buffer and the terminal event after a sequence of operations.
  history :
      (ops : List (Op T E)) (past : List T) (capacity : ℕ) (cs : List (Channel T E)) (n : ℕ)
      → Records capacity past
          (emitted ops)
          (run ops (live (last_values capacity past) capacity cs n))
  unfolding terminal_event is_terminated subscribe Subject.complete Subject.error drop_stream
  history [] past capacity cs n = (rw (append-nil past), refl)
  history (Op.subscribes ∷ ops) past capacity cs n =
      history ops past capacity (cs ++ _ ∷ []) (n + 1)
  history (Op.emits v ∷ ops) past capacity cs n =
      let (a, b) = history ops (past ++ v ∷ []) capacity _ n in
      let grown : (past ++ v ∷ []) ++ values_of (emitted ops)
          ≡ past ++ v ∷ values_of (emitted ops) =
        append_assoc past (v ∷ []) (values_of (emitted ops)) in
      subst (λ s. Records capacity past (emitted (Op.emits v ∷ ops)) (run ops s))
        (sym (next_live v past capacity cs n)) (a ∙ ap (last_values capacity) grown, b)
  history (Op.completes ∷ ops) past capacity cs n =
      let (a, b) =
        ended_stays ops (Subject.complete (live (last_values capacity past) capacity cs n)) refl in
      (a ∙ rw (append-nil past), b)
  history (Op.fails e ∷ ops) past capacity cs n =
      let (a, b) =
        ended_stays ops (Subject.error e (live (last_values capacity past) capacity cs n)) refl in
      (a ∙ rw (append-nil past), b)
  history (Op.drops id ∷ ops) past capacity cs n =
      history ops past capacity (map (close_if id) cs) n

  -- A subscriber that comes after any operations on a new subject finds in its channel the last
  -- `capacity` values of those emitted before the first terminal event, and then that event.
  pub subscribe-replays :
      (before : List (Op T E)) (capacity : ℕ)
      → (subscribe (run before (with_replay capacity))).0.sent
        ≡ map Event.next (last_values capacity (values_of (emitted before)))
          ++ to_list (terminal_of (emitted before))
  unfolding with_replay subscribe replayed
  subscribe-replays before capacity =
      let (a, b) =
        subst (λ r. Records capacity [] (emitted before) (run before (live r capacity [] 0)))
          (last_values-nil capacity) (history before [] capacity [] 0) in
      rw (a, b)
