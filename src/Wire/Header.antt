-- ===== src/Wire/Header.antt =====
-- ice-rpc/src/types/header.rs: the header of a sample, and the headers that answer a request.
pub mod Answers
use ice_rpc.Common.{ℕ, List, replicate}
use ice_rpc.Wire.Kind.{EventKind, as_u8, from_u8}
use ice_rpc.Wire.Trace.{TraceContext, Counters, fresh_id}

-- consts.rs.
abbrev pub protocol_version : ℕ
protocol_version = 2

pub record RpcHeader : Type 0 where
  pub correlation_id : List ℕ  -- [u8; 16]
  pub timestamp_ns : ℕ  -- u64
  pub seq : ℕ  -- u64
  pub trace_id : List ℕ  -- [u8; 16]
  pub parent_span_id : ℕ  -- u64
  pub span_id : ℕ  -- u64
  pub service_id : ℕ  -- u32
  pub method_id : ℕ  -- u32
  pub traceparent_version : ℕ  -- u8
  pub event_kind : ℕ  -- u8
  pub protocol : ℕ  -- u16, `protocol_version`
  pub service_version : ℕ  -- u16
  pub flags : ℕ  -- u8

pub record ServiceRef : Type 0 where
  pub id : ℕ  -- u32
  pub version : ℕ  -- u16

abbrev zero_id : List ℕ
zero_id = replicate 16 0

-- A fresh request; the clock's reading is an argument.
unfoldable pub request : ℕ → ℕ → ℕ → ℕ → Counters → RpcHeader × Counters
unfolding fresh_id as_u8
request method_id service_id service_version now s =
    let (id, s') = fresh_id s in
    (
      record {
        correlation_id = id;
        timestamp_ns = now;
        seq = 0;
        trace_id = zero_id;
        parent_span_id = 0;
        span_id = 0;
        service_id = service_id;
        method_id = method_id;
        traceparent_version = 0;
        event_kind = as_u8 EventKind.request;
        protocol = protocol_version;
        service_version = service_version;
        flags = 0;
      },
      s',
    )

unfoldable pub with_trace : RpcHeader → TraceContext → RpcHeader
with_trace h t = record h {
  trace_id = t.trace_id;
  parent_span_id = t.parent_span_id;
  flags = t.flags;
}

unfoldable pub with_span_id : RpcHeader → ℕ → RpcHeader
with_span_id h span_id = record h { span_id = span_id }

unfoldable pub with_seq : RpcHeader → ℕ → RpcHeader
with_seq h seq = record h { seq = seq }

unfoldable pub trace : RpcHeader → TraceContext
trace h = record { trace_id = h.trace_id; parent_span_id = h.parent_span_id; flags = h.flags }

unfoldable pub kind_of : RpcHeader → EventKind
unfolding from_u8
kind_of h = from_u8 h.event_kind

unfoldable pub response_from : RpcHeader → EventKind → ℕ → ℕ → RpcHeader
unfolding as_u8
response_from request kind service_version now = record {
  correlation_id = request.correlation_id;
  timestamp_ns = now;
  seq = 0;
  trace_id = request.trace_id;
  parent_span_id = request.parent_span_id;
  span_id = 0;
  service_id = request.service_id;
  method_id = 0;
  traceparent_version = request.traceparent_version;
  event_kind = as_u8 kind;
  protocol = protocol_version;
  service_version = service_version;
  flags = request.flags;
}

unfoldable pub cancel_from : RpcHeader → ℕ → RpcHeader
unfolding as_u8
cancel_from request now = record {
  correlation_id = request.correlation_id;
  timestamp_ns = now;
  seq = 0;
  trace_id = request.trace_id;
  parent_span_id = request.parent_span_id;
  span_id = 0;
  service_id = request.service_id;
  method_id = 0;
  traceparent_version = request.traceparent_version;
  event_kind = as_u8 EventKind.cancel;
  protocol = protocol_version;
  service_version = request.service_version;
  flags = request.flags;
}
