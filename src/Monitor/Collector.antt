-- ===== src/Monitor/Collector.antt =====
-- ice-rpc-monitor/src/collector.rs: what the observer does with a drained sample, and its periodic
-- work. What the linked decoders and the formatting answer is a part of the configuration. An
-- instant is a number of nanoseconds.
pub mod Samples
pub mod Upkeep
pub mod Gauge
pub mod Counted
pub mod Exact
pub mod Replayed
pub mod Duplicate
pub mod Reachable
use mathlib.Core.Logic.{ite}
use ice_rpc.Common.{
  ℕ, zero, suc, ◌+◌, ◌-◌, ◌*◌, ◌/◌, ◌%◌, ◌^◌, ◌==◌, ltb, leb, Bool, true, false, not, Option, none,
  some, List, [], ◌∷◌, ◌++◌, length, if◌then◌else◌, ◌&&◌,
}
use ice_rpc.Common.Int.{pos, negsuc}
use ice_rpc.Rx.Event.{Text}
use ice_rpc.Wire.Kind
use ice_rpc.Wire.Kind.{EventKind, as_u8}
use ice_rpc.Wire.Header.{RpcHeader, kind_of}
use ice_rpc.Monitor.Loss.{LossTracker, observe}
use ice_rpc.Monitor.Correlate
use ice_rpc.Monitor.Correlate.{
  Correlate, PendingCall, new_call, Resolution, matched, unknown, contains, insert,
}
use ice_rpc.Monitor.Metrics
use ice_rpc.Monitor.Metrics.{
  Metrics, Direction, on_inflight, on_unmatched_request, on_orphan_response, on_latency,
  on_clock_skew, on_sample_gap, on_payload, set_nodes_alive, add_node_crash,
}

pub record Emitter : Type 0 where
  pub publisher_id : ℕ
  pub pid : ℕ

pub data Sample : Type 0 where
  meta : ℕ → Sample
  full : List ℕ → Sample

abbrev pub payload_len : Sample → ℕ
payload_len (meta n) = n
payload_len (full payload) = length payload

pub record Config : Type 0 where
  pub method_name : ℕ → ℕ → Option Text
  pub request_of : ℕ → Text → List ℕ → Option Text
  pub response_of : ℕ → Text → List ℕ → Option Text
  -- The text of a bare transport error.
  pub rpc_error_of : List ℕ → Option Text
  -- The two formats of a number: of an unknown method, and of an undecoded payload.
  pub hexadecimal : ℕ → Text
  pub undecoded : ℕ → Text
  pub has_trace : Bool
  pub trace_sample_rate : ℕ

-- One sample of a response that waits for its request.
abbrev pub Waiting : Type 0
Waiting = RpcHeader × Emitter × Sample

pub record DeferredResponses : Type 0 where
  pub channel : Text
  pub samples : List Waiting
  pub since : ℕ

-- What the trace sink is given.
pub record TraceRecord : Type 0 where
  pub header : RpcHeader
  pub channel : Text
  pub call : PendingCall
  pub event_kind : EventKind
  pub emitter_pid : ℕ
  pub response_bytes : ℕ
  pub latency_us : ℕ
  pub response_text : Option Text

abbrev pub max_deferred : ℕ
max_deferred = 16384

abbrev pub max_deferred_samples : ℕ
max_deferred_samples = 4096

-- 250 ms.
abbrev pub orphan_grace : ℕ
orphan_grace = 250000000

abbrev pub Deferred : Type 0
Deferred = List (List ℕ × DeferredResponses)

-- The part of the monitor that samples change.
pub record Monitor : Type 0 where
  pub metrics : Metrics
  pub correlate : Correlate (List ℕ)
  pub loss : LossTracker
  pub deferred : Deferred
  pub traced : ℕ
  pub trace : List TraceRecord
  pub pids : List (ℕ × Bool)

-- `entry(pid).or_insert(true)`.
unfoldable pub note_pid : ℕ → List (ℕ × Bool) → List (ℕ × Bool)
note_pid pid [] = (pid, true) ∷ []
note_pid pid ((p, alive) ∷ pids) =
    let rest = note_pid pid pids in if p == pid then (p, alive) ∷ pids else (p, alive) ∷ rest

-- The calls that are given up, because they are evicted or too old.
unfoldable pub give_up : List PendingCall → Metrics → Metrics
give_up [] m = m
give_up (call ∷ calls) m =
    give_up calls
      (on_inflight call.channel call.service_id (negsuc 0) (on_unmatched_request call.channel m))

unfoldable pub orphans : {A : Type 0} → List A → Text → Metrics → Metrics
orphans [] channel m = m
orphans (sample ∷ samples) channel m = orphans samples channel (on_orphan_response channel m)

abbrev or_undecoded : Config → List ℕ → Option Text → Option Text
or_undecoded config payload none = some (config.undecoded (length payload))
or_undecoded config payload (some text) = some text

abbrev pub text_of_request : Config → ℕ → Text → Sample → Option Text
text_of_request config service_id method (meta n) = none
text_of_request config service_id method (full payload) =
    or_undecoded config payload (config.request_of service_id method payload)

abbrev pub response_text : Config → RpcHeader → PendingCall → Sample → Option Text
response_text config header call (meta n) = none
response_text config header call (full payload) = or_undecoded config payload (
    if as_u8 (kind_of header) == as_u8 EventKind.rpc_error
    then config.rpc_error_of payload
    else config.response_of call.service_id call.method payload)

-- The record of a call that is complete, where the sampling takes it.
unfoldable pub emit_trace :
    Config → Text → RpcHeader → Emitter → Sample → PendingCall → EventKind → Monitor → Monitor
emit_trace config channel header emitter sample call kind o =
    let traced : ℕ = (o.traced + 1) % 2 ^ 64 in
    let counted : Monitor = record o { traced = traced } in
    if not config.has_trace
    then o
    else if config.trace_sample_rate == 0
    then counted
    else if not (traced % config.trace_sample_rate == 0)
    then counted
    else record counted {
      trace =
          o.trace
          ++ record {
            header = header;
            channel = channel;
            call = call;
            event_kind = kind;
            emitter_pid = emitter.pid;
            response_bytes = payload_len sample;
            latency_us = (header.timestamp_ns - call.request_ts_ns) / 1000;
            response_text = response_text config header call sample;
          }
            ∷ [];
    }

-- The latency of a call, at its first response.
unfoldable pub first_latency : RpcHeader → PendingCall → Metrics → Metrics
first_latency header call m =
    if call.first_response_seen
    then m
    else if leb call.request_ts_ns header.timestamp_ns
    then on_latency call.channel call.service_id call.method
        (header.timestamp_ns - call.request_ts_ns) m
    else on_clock_skew m

unfoldable pub complete_response :
    Config → Text → RpcHeader → Emitter → Sample → PendingCall → EventKind → Monitor → Monitor
complete_response config channel header emitter sample call kind o =
    let m : Metrics = first_latency header call o.metrics in
    if Kind.is_terminal kind
    then emit_trace config channel header emitter sample call kind
        (record o { metrics = on_inflight call.channel call.service_id (negsuc 0) m })
    else record o { metrics = m }
