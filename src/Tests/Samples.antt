-- ===== src/Tests/Samples.antt =====
-- Data for the runs: a codec that round-trips, a consumer that waits for a call, a service, a hub.
use ice_rpc.Common.{
  ℕ, ◌≡◌, refl, arith, true, false, Option, some, List, [], ◌∷◌, replicate, ◌+◌, ◌++◌, ◌==◌,
  if◌then◌else◌,
}
use ice_rpc.Common.Text.{codes}
use ice_rpc.Common.Result.{Result, ok, err}
use ice_rpc.Rx.Event.{
  Text, RpcError, serialization_error, transport_error, timeout, cancelled, internal,
  protocol_mismatch, unknown_method, unknown_service, incompatible_version,
}
use ice_rpc.Wire.Kind.{EventKind}
use ice_rpc.Wire.Event.{WireEvent, next, complete, complete_with, error, rpc_error}
use ice_rpc.Wire.Trace.{Counters}
use ice_rpc.Wire.Header.{RpcHeader, protocol_version}
use ice_rpc.Rx.Event.{Event}
use ice_rpc.Rx.Stream.{Script, pending, ready}
use ice_rpc.Transport.Client.{ConsumerPorts}
use ice_rpc.Transport.Dispatcher.{Task, done, yields, ServiceDispatcher}
use ice_rpc.Transport.Hub.{Bus}
use ice_rpc.Transport.Codec.{Bytes, Codec, IsRoundTrip, IsTotal}

abbrev pub rpc_bytes : RpcError → Bytes
rpc_bytes serialization_error = 0 ∷ []
rpc_bytes (transport_error m) = 1 ∷ m
rpc_bytes timeout = 2 ∷ []
rpc_bytes cancelled = 3 ∷ []
rpc_bytes (internal m) = 4 ∷ m
rpc_bytes (protocol_mismatch m) = 5 ∷ m
rpc_bytes (unknown_method m) = 6 ∷ m
rpc_bytes (unknown_service m) = 7 ∷ m
rpc_bytes (incompatible_version e a) = 8 ∷ e ∷ a ∷ []

abbrev read_versions : Bytes → Result RpcError Text
read_versions (e ∷ a ∷ m) = ok (incompatible_version e a)
read_versions _ = err (codes "not an error")

abbrev pub read_rpc : Bytes → Result RpcError Text
read_rpc [] = err (codes "not an error")
read_rpc (k ∷ m) =
    if k == 0
    then ok serialization_error
    else if k == 1
    then ok (transport_error m)
    else if k == 2
    then ok timeout
    else if k == 3
    then ok cancelled
    else if k == 4
    then ok (internal m)
    else if k == 5
    then ok (protocol_mismatch m)
    else if k == 6
    then ok (unknown_method m)
    else if k == 7
    then ok (unknown_service m)
    else read_versions m

abbrev pub wire_bytes : WireEvent ℕ ℕ → Bytes
wire_bytes (next v) = 0 ∷ v ∷ []
wire_bytes complete = 1 ∷ []
wire_bytes (complete_with v) = 2 ∷ v ∷ []
wire_bytes (error e) = 3 ∷ e ∷ []
wire_bytes (rpc_error e) = 4 ∷ rpc_bytes e

abbrev pub wrapped : Result RpcError Text → Result (WireEvent ℕ ℕ) Text
wrapped (ok e) = ok (rpc_error e)
wrapped (err m) = err m

abbrev read_with : (ℕ → WireEvent ℕ ℕ) → Bytes → Result (WireEvent ℕ ℕ) Text
read_with f [] = err (codes "not an event")
read_with f (v ∷ m) = ok (f v)

abbrev pub read_wire : Bytes → Result (WireEvent ℕ ℕ) Text
read_wire [] = err (codes "not an event")
read_wire (k ∷ m) =
    if k == 0
    then read_with next m
    else if k == 1
    then ok complete
    else if k == 2
    then read_with complete_with m
    else if k == 3
    then read_with error m
    else wrapped (read_rpc m)

abbrev pub plain_codec : Codec ℕ ℕ
plain_codec = record {
  encode_wire = λ w. some (wire_bytes w);
  encode_rpc_error = λ e. some (rpc_bytes e);
  decode_wire = read_wire;
  decode_rpc_error = read_rpc;
}

read_rpc-rpc_bytes : (e : RpcError) → read_rpc (rpc_bytes e) ≡ ok e
read_rpc-rpc_bytes serialization_error = refl
read_rpc-rpc_bytes (transport_error m) = refl
read_rpc-rpc_bytes timeout = refl
read_rpc-rpc_bytes cancelled = refl
read_rpc-rpc_bytes (internal m) = refl
read_rpc-rpc_bytes (protocol_mismatch m) = refl
read_rpc-rpc_bytes (unknown_method m) = refl
read_rpc-rpc_bytes (unknown_service m) = refl
read_rpc-rpc_bytes (incompatible_version e a) = refl

read_wire-wire_bytes : (w : WireEvent ℕ ℕ) → read_wire (wire_bytes w) ≡ ok w
read_wire-wire_bytes (next v) = refl
read_wire-wire_bytes complete = refl
read_wire-wire_bytes (complete_with v) = refl
read_wire-wire_bytes (error e) = refl
read_wire-wire_bytes (rpc_error e) = rw (read_rpc-rpc_bytes e) refl

pub plain_codec-IsRoundTrip : IsRoundTrip plain_codec
plain_codec-IsRoundTrip = record {
  wire =
      λ w b h. let same : wire_bytes w ≡ b = ground arith in rw (← same) (read_wire-wire_bytes w);
  rpc_error =
      λ e b h. let same : rpc_bytes e ≡ b = ground arith in rw (← same) (read_rpc-rpc_bytes e);
}

pub plain_codec-IsTotal : IsTotal plain_codec
plain_codec-IsTotal = record {
  wire_total = λ w. (wire_bytes w, refl);
  rpc_error_total = λ e. (rpc_bytes e, refl);
}

abbrev pub waiting : ConsumerPorts ℕ ℕ ℕ
waiting = record {
  handlers = 7 ∷ 9 ∷ [];
  inbox = λ cid. record { events = []; receiver = true };
  cancels = [];
}

-- Two values, a pause, and the end.
abbrev pub two_values : Script ℕ ℕ
two_values = ready (Event.next 10) ∷ pending ∷ ready (Event.next 20) ∷ ready Event.complete ∷ []

abbrev pub counters : Counters
counters = record { pid = 4321; correlation = 17; span = 1 }

abbrev pub echo_header : RpcHeader
echo_header = record {
  correlation_id = replicate 15 0 ++ 7 ∷ [];
  timestamp_ns = 1000;
  seq = 3;
  trace_id = replicate 16 0;
  parent_span_id = 0;
  span_id = 0;
  service_id = 77;
  method_id = 5;
  traceparent_version = 0;
  event_kind = 0;
  protocol = protocol_version;
  service_version = 1;
  flags = 0;
}

abbrev pub echo_task : Task
echo_task = yields ((EventKind.next, 1 ∷ []) ∷ []) (done ((EventKind.complete, []) ∷ []))

abbrev pub echo_service : ServiceDispatcher
echo_service = record {
  service = record { id = 77; version = 1 };
  handlers =
      (
        5,
        record { handler = λ h payload. record { emitted = []; task = echo_task }; oneway = false },
      )
      ∷ [];
}

abbrev pub echo_table : List (ℕ × ServiceDispatcher)
echo_table = (77, echo_service) ∷ []

abbrev pub open_bus : Bus
open_bus = record { clock = λ seq. 5000 + seq; delivers = λ seq. true }

abbrev pub encode_error : RpcError → Option Bytes
encode_error e = some (rpc_bytes e)
