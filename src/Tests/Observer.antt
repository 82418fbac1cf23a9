-- ===== src/Tests/Observer.antt =====
-- Runs of the observer's handling of samples.
use native.Mathlib.Decide.{ℕ_discrete}
use mathlib.Core.List.{List-discrete}
use ice_rpc.Common.{ℕ, ◌+◌, ◌≡◌, refl, arith, true, false, none, List, [], ◌∷◌, replicate}
use ice_rpc.Common.Int.{pos}
use ice_rpc.Common.Text.{codes}
use ice_rpc.Wire.Kind.{as_u8, from_u8}
use ice_rpc.Wire.Header.{RpcHeader, kind_of}
use ice_rpc.Monitor.Correlate.{PendingCall}
use ice_rpc.Monitor.Metrics.{Direction, empty_metrics}
use ice_rpc.Monitor.Collector.{Config, Emitter, Sample, Monitor}
use ice_rpc.Monitor.Collector.Samples.{process, on_request}
use ice_rpc.Monitor.Collector.Upkeep.{sweep, resolve_deferred}
use ice_rpc.Monitor.Collector.Gauge.{one_of, tracked}
use ice_rpc.Monitor.Collector.Counted.{IsExact}
use ice_rpc.Monitor.Collector.Duplicate.{on_request-overcounts}
use ice_rpc.Monitor.Collector.Reachable.{
  new, sampled, resolved_deferred, swept, Run, start, turn, reachable-IsExact,
}

abbrev same_id : Discrete (List ℕ)
same_id = List-discrete ℕ_discrete

abbrev header_of : ℕ → ℕ → ℕ → RpcHeader
header_of id kind timestamp = record {
  correlation_id = replicate 16 id;
  timestamp_ns = timestamp;
  seq = 1;
  trace_id = replicate 16 0;
  parent_span_id = 0;
  span_id = 0;
  service_id = 77;
  method_id = 5;
  traceparent_version = 0;
  event_kind = kind;
  protocol = 2;
  service_version = 1;
  flags = 0;
}

abbrev plain : Config
plain = record {
  method_name = λ service method. none;
  request_of = λ service method payload. none;
  response_of = λ service method payload. none;
  rpc_error_of = λ payload. none;
  hexadecimal = λ n. codes "0x";
  undecoded = λ n. codes "bytes";
  has_trace = true;
  trace_sample_rate = 1;
}

abbrev caller : Emitter
caller = record { publisher_id = 1; pid = 40 }

abbrev one_request : Monitor
one_request =
    process same_id plain 5 (codes "db") Direction.request (header_of 3 0 100) caller
      (Sample.meta 8) (new 10 1000)

abbrev one_response : Monitor
one_response =
    process same_id plain 6 (codes "db") Direction.response (header_of 3 2 400) caller
      (Sample.meta 8) one_request

abbrev at_end : Monitor
at_end = sweep 2000 (resolve_deferred same_id plain 7 one_response)

-- A request, its completion, the deferred responses and a sweep.
a_run : Run same_id plain (new 10 1000) at_end
unfolding new
a_run =
    turn (new 10 1000) (resolve_deferred same_id plain 7 one_response) at_end
      (turn (new 10 1000) one_response (resolve_deferred same_id plain 7 one_response)
        (turn (new 10 1000) one_request one_response
          (turn (new 10 1000) (new 10 1000) one_request (start (new 10 1000)) (
            sampled 5 (codes "db") Direction.request (header_of 3 0 100) caller (Sample.meta 8)
              (new 10 1000) (λ h. refl)))
          (sampled 6 (codes "db") Direction.response (header_of 3 2 400) caller (Sample.meta 8)
            one_request (λ h. cc)))
        (resolved_deferred 7 one_response))
      (swept 2000 (resolve_deferred same_id plain 7 one_response))

reachable-IsExact_example : IsExact same_id at_end
reachable-IsExact_example = reachable-IsExact same_id plain 10 1000 at_end a_run

abbrev tracked_call : PendingCall
tracked_call = record {
  channel = codes "db";
  service_id = 77;
  method = codes "0x";
  request_ts_ns = 100;
  request_bytes = 8;
  request_text = none;
  first_response_seen = false;
  started = 5;
}

abbrev one_tracked : Monitor
one_tracked = record {
  metrics = record empty_metrics { inflight = λ c s. pos (tracked c s entries) };
  correlate = record { entries = entries; max = 10; ttl = 1000 };
  loss = record { last = [] };
  deferred = [];
  traced = 0;
  trace = [];
  pids = [];
}
  where
    entries : List (List ℕ × PendingCall)
    entries = (replicate 16 3, tracked_call) ∷ []

-- The gauge counts two calls, where the table tracks one.
on_request-overcounts_example :
    let o' : Monitor =
      on_request same_id plain 9 (codes "db") (header_of 3 0 200) (Sample.meta 8) one_tracked in
    o'.metrics.inflight (codes "db") 77
    ≡ pos (one_of (codes "db") 77 tracked_call + tracked (codes "db") 77 o'.correlate.entries)
unfolding kind_of from_u8 as_u8 ℕ_discrete
on_request-overcounts_example =
    on_request-overcounts same_id plain 9 (codes "db") (header_of 3 0 200) (Sample.meta 8)
      one_tracked tracked_call refl (ground arith) (ground arith) (λ c s. refl) (codes "db") 77
