-- ===== src/Rx/Stream.antt =====
-- ice-rpc-rx/src/stream.rs: the pull side of a stream. What the wrapped stream answers, poll by
-- poll, is a list; once it is used up, the wrapped stream is closed and answers `Ready(None)`.
pub mod Reading
use ice_rpc.Common.{Bool, true, false, Option, none, some, List, [], ◌∷◌, ◌++◌, if◌then◌else◌}
use ice_rpc.Common.Text.{codes}
use ice_rpc.Common.Result.{Result, ok, err}
use ice_rpc.Rx.Event.{Event, Text, ObservableError, technical, empty, transport_error, is_terminal}

pub data Poll {ℓ} (A : Type ℓ) : Type ℓ where
  pending : Poll A
  ready : A → Poll A

module _ {ℓ κ} (T : Type ℓ) (E : Type κ) where
  abbrev pub Script : Type (ℓ ⊔ κ)
  Script = List (Poll (Event T E))

  pub record Observable : Type (ℓ ⊔ κ) where
    pub script : List (Poll (Event T E))
    pub terminated : Bool

abbrev pub closed_message : Text
closed_message = codes "stream closed before completion"

module _ {ℓ κ} {T : Type ℓ} {E : Type κ} where
  -- `terminated` follows every event that is delivered.
  pub deliver : Event T E → Script T E → Bool → Observable T E
  deliver e rest terminated = record {
    script = rest;
    terminated = if is_terminal e then true else terminated;
  }

  pub poll_from : Script T E → Bool → Poll (Option (Event T E)) × Observable T E
  unfolding deliver is_terminal
  poll_from [] t = (ready none, record { script = []; terminated = t })
  poll_from (pending ∷ s) t = (pending, record { script = s; terminated = t })
  poll_from (ready e ∷ s) t = (ready (some e), deliver e s t)

  -- `Stream::poll_next` of the observable.
  unfoldable pub poll_next : Observable T E → Poll (Option (Event T E)) × Observable T E
  unfolding poll_from
  poll_next o = poll_from o.script o.terminated

  -- `recv` waits while the stream is pending; `none` is `RecvError`, a closed stream.
  pub recv_from : Script T E → Bool → Option (Event T E) × Observable T E
  unfolding deliver is_terminal
  recv_from [] t = (none, record { script = []; terminated = t })
  recv_from (pending ∷ s) t = recv_from s t
  recv_from (ready e ∷ s) t = (some e, deliver e s t)

  unfoldable pub recv : Observable T E → Option (Event T E) × Observable T E
  unfolding recv_from
  recv o = recv_from o.script o.terminated

  pub after_recv :
      Option (Event T E) → Observable T E → Option (Result T (ObservableError E)) × Observable T E
  after_recv (some (Event.next v)) o = (some (ok v), o)
  after_recv (some (Event.error e)) o = (some (err e), o)
  after_recv (some Event.complete) o = (none, o)
  after_recv none o =
      if o.terminated
      then (none, o)
      else (some (err (technical (transport_error closed_message))), record o { terminated = true })

  unfoldable pub next : Observable T E → Option (Result T (ObservableError E)) × Observable T E
  unfolding after_recv recv
  next o = let (event, o') = recv o in after_recv event o'

  unfoldable pub first_event : Script T E → Result T (ObservableError E)
  first_event [] = err empty
  first_event (pending ∷ s) = first_event s
  first_event (ready (Event.next v) ∷ s) = ok v
  first_event (ready (Event.error e) ∷ s) = err e
  first_event (ready Event.complete ∷ s) = err empty

  abbrev pub ok_or : Option T → ObservableError E → Result T (ObservableError E)
  ok_or (some v) e = ok v
  ok_or none e = err e

  pub last_loop : Option T → Script T E → Result T (ObservableError E)
  last_loop last [] = ok_or last empty
  last_loop last (pending ∷ s) = last_loop last s
  last_loop last (ready (Event.next v) ∷ s) = last_loop (some v) s
  last_loop last (ready (Event.error e) ∷ s) = err e
  last_loop last (ready Event.complete ∷ s) = ok_or last empty

  unfoldable pub last_event : Script T E → Result T (ObservableError E)
  unfolding last_loop
  last_event s = last_loop none s

  unfoldable pub collect_loop : List T → Script T E → Result (List T) (ObservableError E)
  collect_loop values [] = ok values
  collect_loop values (pending ∷ s) = collect_loop values s
  collect_loop values (ready (Event.next v) ∷ s) = collect_loop (values ++ v ∷ []) s
  collect_loop values (ready Event.complete ∷ s) = ok values
  collect_loop values (ready (Event.error e) ∷ s) = err e

  unfoldable pub collect_values : Script T E → Result (List T) (ObservableError E)
  unfolding collect_loop
  collect_values s = collect_loop [] s

  unfoldable pub first_value : Observable T E → Result T (ObservableError E)
  unfolding first_event
  first_value o = first_event o.script

  unfoldable pub last_value : Observable T E → Result T (ObservableError E)
  unfolding last_event
  last_value o = last_event o.script

  unfoldable pub collect : Observable T E → Result (List T) (ObservableError E)
  unfolding collect_values
  collect o = collect_values o.script
