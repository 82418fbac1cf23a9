-- ===== src/Tests/Subjects.antt =====
-- Runs of the subject and of the cancellation token.
use ice_rpc.Common.{ℕ, ◌≡◌, refl, true, false, some, List, [], ◌∷◌}
use ice_rpc.Rx.Event.{Event}
use ice_rpc.Rx.Subject
use ice_rpc.Rx.Subject.{Channel, with_replay, subscribe, to_list}
use ice_rpc.Rx.Subject.Runs.{Op, subscribes, emits, completes, drops, run}
use ice_rpc.Rx.Subject.Hears.{heard_after, subscribe-heard_after}
use ice_rpc.Rx.Cancel.{
  Action, swap, take_wakers, wake_one, read_flag, register, read_again, new, has, poll_cancelled,
  poll_cancelled_cached,
}
use ice_rpc.Rx.Cancel
use ice_rpc.Rx.Cancel.Wakeup.{parked-woken}

-- Two values, a subscriber that leaves, and one value more.
abbrev before : List (Op ℕ ℕ)
before = subscribes ∷ emits 1 ∷ emits 2 ∷ drops 0 ∷ emits 3 ∷ []

abbrev after : List (Op ℕ ℕ)
after = emits 4 ∷ subscribes ∷ completes ∷ emits 5 ∷ []

subscribe-heard_after_example :
    heard_after after (run before (with_replay 2))
    ≡ some (record {
      id = 1;
      sent = Event.next 2 ∷ Event.next 3 ∷ Event.next 4 ∷ Event.complete ∷ [];
      is_closed = false;
    })
unfolding with_replay subscribe Subject.next Subject.drop_stream
subscribe-heard_after_example = subscribe-heard_after before after 2 refl (tt, (tt, (tt, (tt, tt))))

-- Task 3 parks; task 5 registers while the token is cancelled; task 3 is woken.
abbrev steps : List Action
steps =
    read_flag 3
    ∷ register 3
    ∷ read_again 3
    ∷ read_flag 5
    ∷ swap
    ∷ register 5
    ∷ take_wakers
    ∷ wake_one
    ∷ read_again 5
    ∷ wake_one
    ∷ []

parked-woken_example : has (Cancel.run steps new).woken 3 ≡ true
unfolding Cancel.run Cancel.act new
parked-woken_example = parked-woken steps 3 refl refl refl refl
