-- ===== src/Tests/Threads.antt =====
-- Runs of a thread's slots, of opening a service, and of the receive loop.
use ice_rpc.Common.{
  ℕ, ◌+◌, ◌%◌, ◌≡◌, ◌≤◌, refl, Bool, true, false, none, some, List, [], ◌∷◌, length, ltb,
}
use ice_rpc.Common.Text.{codes}
use ice_rpc.Common.Result.{Result, ok, err}
use ice_rpc.Rx.Event.{Text, RpcError, transport_error}
use ice_rpc.Transport.Request.{CallContext}
use ice_rpc.Transport.Ambient.{
  Ambient, Work, finished, reads, poll_scoped, with_token, poll_all, reads_under, poll_all-scoped,
}
use ice_rpc.Transport.Open.{retry_open, PubSubOpenError, PubSubCreateError}
use ice_rpc.Transport.Open.Retry.{Tried, retry_open-Tried}
use ice_rpc.Transport.Pump.{
  Turn, Received, sample, nothing, failed, run_receive_loop, turns, all_events_handled,
}
use ice_rpc.Transport.Pump.Drained.{handled_in, run_receive_loop-handled}
use ice_rpc.Transport.Pump.Terminated.{turns-bounded}

abbrev debug_open : PubSubOpenError → Text
debug_open e = codes "open"

abbrev debug_create : PubSubCreateError → Text
debug_create e = codes "create"

-- The service is there at the third attempt.
abbrev third_time : ℕ → Result ℕ RpcError
third_time n = elim (ltb n 2) [ true ↦ err (transport_error (codes "not yet")) | false ↦ ok 7 ]

retry_open-Tried_example :
    Tried 4 third_time (λ n. false) 0 (retry_open 4 third_time (λ n. false) 0)
retry_open-Tried_example = retry_open-Tried 4 third_time (λ n. false) 0

abbrev turn_of : Received ℕ → Bool → Bool → Turn ℕ
turn_of r stop asked = record {
  stopped = stop;
  received = r;
  termination_requested = asked;
  wakeup = record { from_guard = []; result = all_events_handled };
}

abbrev schedule : List (Turn ℕ)
schedule =
    turn_of (sample 4) false false
    ∷ turn_of nothing false false
    ∷ turn_of failed false false
    ∷ turn_of (sample 5) false false
    ∷ turn_of (sample 6) true false
    ∷ []

run_receive_loop-handled_example : handled_in (run_receive_loop true true schedule) ≡ 4 ∷ 5 ∷ []
run_receive_loop-handled_example =
    run_receive_loop-handled schedule (refl, (refl, (refl, (refl, (refl, tt)))))

abbrev last_turns : List (Turn ℕ)
last_turns = turn_of (sample 1) false true ∷ turn_of (sample 2) false true ∷ []

turns-bounded_example :
    length (handled_in (turns last_turns (record { idle_spins = 0; signal_ticks = 254 })))
      + 254 % 256
    ≤ 255
turns-bounded_example =
    turns-bounded last_turns (record { idle_spins = 0; signal_ticks = 254 }) (refl, (refl, tt))

abbrev call_of : ℕ → CallContext
call_of n = record {
  correlation_id = n ∷ [];
  service_name = codes "Billing";
  service_id = 7;
  service_version = 1;
  method = codes "charge";
  received_at_ns = 50;
  trace = record { trace_id = n ∷ []; parent_span_id = n; flags = 1 };
  span_id = n;
}

abbrev two_tasks : List (CallContext × Work)
two_tasks =
    (call_of 1, reads (poll_scoped (call_of 3) (reads finished) (reads finished)))
    ∷ (call_of 2, with_token 9 (reads finished) finished)
    ∷ []

abbrev empty_slots : Ambient
empty_slots = record { current_call = none; current_cancel = none }

poll_all-scoped_example : poll_all two_tasks empty_slots ≡ (
  ((some (call_of 1), none) ∷ (some (call_of 3), none) ∷ (some (call_of 1), none) ∷ [])
      ∷ ((some (call_of 2), some 9) ∷ [])
      ∷ [],
  empty_slots,
)
unfolding reads_under
poll_all-scoped_example = poll_all-scoped two_tasks empty_slots
