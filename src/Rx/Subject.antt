-- ===== src/Rx/Subject.antt =====
-- ice-rpc-rx/src/subject.rs: the multicast source. The lock `emit` makes each operation one step.
-- A subscriber's channel is unbounded and its sender stands in `subscribers` alone, so the list
-- holds the channels themselves: what was sent, in order, and whether the receiver was dropped.
pub mod Replay
pub mod Runs
pub mod Hears
use ice_rpc.Common.{
  ℕ, ◌+◌, ◌==◌, ltb, Bool, true, false, not, ◌||◌, Option, none, some, List, [], ◌∷◌, ◌++◌, length,
  map, drop, filter, if◌then◌else◌,
}
use ice_rpc.Rx.Event.{Event, ObservableError, business}

module _ {ℓ κ} (T : Type ℓ) (E : Type κ) where
  pub record Channel : Type (ℓ ⊔ κ) where
    pub id : ℕ
    pub sent : List (Event T E)
    pub is_closed : Bool

  pub record State : Type (ℓ ⊔ κ) where
    pub replay : List T
    pub capacity : ℕ
    pub completed : Bool
    pub error : Option (ObservableError E)
    pub subscribers : List (Channel)
    -- How many channels were made.
    pub issued : ℕ

module _ {ℓ} {T : Type ℓ} where
  -- The deque of the last `capacity` values.
  unfoldable pub remember : ℕ → T → List T → List T
  remember capacity v replay =
      if ltb 0 capacity
      then (if length replay == capacity then drop 1 replay else replay) ++ v ∷ []
      else replay

module _ {κ} {E : Type κ} where
  abbrev pub is_some : Option (ObservableError E) → Bool
  is_some none = false
  is_some (some e) = true

module _ {ℓ κ} {T : Type ℓ} {E : Type κ} where
  unfoldable pub with_replay : ℕ → State T E
  with_replay capacity = record {
    replay = [];
    capacity = capacity;
    completed = false;
    error = none;
    subscribers = [];
    issued = 0;
  }

  unfoldable pub is_terminated : State T E → Bool
  is_terminated s = s.completed || is_some s.error

  pub is_live : Channel T E → Bool
  is_live c = not c.is_closed

  pub retain_live : List (Channel T E) → List (Channel T E)
  unfolding is_live
  retain_live cs = filter is_live cs

  pub ending : Option (ObservableError E) → Bool → Option (Event T E)
  ending (some e) completed = some (Event.error e)
  ending none completed = if completed then some Event.complete else none

  unfoldable pub terminal_event : State T E → Option (Event T E)
  unfolding ending
  terminal_event s = ending s.error s.completed

  -- A send to a channel whose receiver is gone fails, and the failure is ignored.
  pub send_event : Event T E → Channel T E → Channel T E
  send_event e c = if c.is_closed then c else record c { sent = c.sent ++ e ∷ [] }

  abbrev pub to_list : Option (Event T E) → List (Event T E)
  to_list none = []
  to_list (some e) = e ∷ []

  -- The channel of a new subscriber: the values kept, then the terminal event if there was one.
  unfoldable pub replayed : State T E → Channel T E
  unfolding terminal_event
  replayed s = record {
    id = s.issued;
    sent = map Event.next s.replay ++ to_list (terminal_event s);
    is_closed = false;
  }

  unfoldable pub subscribe : State T E → Channel T E × State T E
  unfolding replayed is_terminated
  subscribe s = (
    replayed s,
    if is_terminated s
        then record s { issued = s.issued + 1 }
        else record s { subscribers = s.subscribers ++ replayed s ∷ []; issued = s.issued + 1 },
  )

  unfoldable pub next : T → State T E → State T E
  unfolding is_terminated remember retain_live send_event
  next v s = if is_terminated s then s else record s {
    replay = remember s.capacity v s.replay;
    subscribers = map (send_event (Event.next v)) (retain_live s.subscribers);
  }

  unfoldable pub complete : State T E → State T E
  unfolding is_terminated retain_live send_event
  complete s = if is_terminated s then s else record s {
    completed = true;
    subscribers = map (send_event Event.complete) (retain_live s.subscribers);
  }

  unfoldable pub error : E → State T E → State T E
  unfolding is_terminated retain_live send_event
  error e s = if is_terminated s then s else record s {
    error = some (business e);
    subscribers = map (send_event (Event.error (business e))) (retain_live s.subscribers);
  }

  -- The subscriber with that id drops its stream.
  abbrev pub close_if : ℕ → Channel T E → Channel T E
  close_if id c = if c.id == id then record c { is_closed = true } else c

  unfoldable pub drop_stream : ℕ → State T E → State T E
  drop_stream id s = record s { subscribers = map (close_if id) s.subscribers }
