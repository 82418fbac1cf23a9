-- ===== src/Transport/Request.antt =====
-- ice-rpc/src/types/context.rs and transport/client.rs: the context of a served call, and the header
-- of a call that is made, inside a handler or outside any.
use ice_rpc.Common.{ℕ, ◌≡◌, refl, true, Option, none, some, List}
use ice_rpc.Rx.Event.{Text}
use ice_rpc.Wire.Fresh.{next_correlation_id}
use ice_rpc.Wire.Trace.{
  TraceContext, Counters, is_present, fresh_id, new_root, child_of, continued_or_root, next_span_id,
}
use ice_rpc.Wire.Header.{
  RpcHeader, ServiceRef, request, with_trace, with_span_id, with_seq, trace, response_from,
  cancel_from,
}
use ice_rpc.Wire.Kind.{EventKind}

pub record CallContext : Type 0 where
  pub correlation_id : List ℕ  -- [u8; 16]
  pub service_name : Text
  pub service_id : ℕ  -- u32
  pub service_version : ℕ  -- u16
  pub method : Text
  pub received_at_ns : ℕ  -- u64
  pub trace : TraceContext
  pub span_id : ℕ  -- u64

-- `CallContext::new`.
unfoldable pub context_of : RpcHeader → Text → Text → Counters → CallContext × Counters
unfolding trace next_span_id
context_of header service_name method s =
    let (span, s') = next_span_id s in
    (
      record {
        correlation_id = header.correlation_id;
        service_name = service_name;
        service_id = header.service_id;
        service_version = header.service_version;
        method = method;
        received_at_ns = header.timestamp_ns;
        trace = trace header;
        span_id = span;
      },
      s',
    )

unfoldable pub child_trace : CallContext → Counters → TraceContext × Counters
unfolding continued_or_root
child_trace ctx s = continued_or_root ctx.trace ctx.span_id s

-- The trace of a direct call: the ambient one goes on, or a root starts.
abbrev pub local_trace : Option CallContext → Counters → TraceContext × Counters
local_trace (some parent) s = child_trace parent s
local_trace none s = new_root s

-- `CallContext::local`, under the context of the call being served, if any.
unfoldable pub local_context :
    Option CallContext → ServiceRef → Text → Text → Counters → CallContext × Counters
unfolding fresh_id next_span_id child_trace new_root
local_context current service service_name method s =
    let (id, s1) = fresh_id s in
    let (inherited, s2) = local_trace current s1 in
    let (span, s3) = next_span_id s2 in
    (
      record {
        correlation_id = id;
        service_name = service_name;
        service_id = service.id;
        service_version = service.version;
        method = method;
        received_at_ns = 0;
        trace = inherited;
        span_id = span;
      },
      s3,
    )

-- The trace that `native_call` sends.
abbrev pub root_trace : Counters → TraceContext × Counters
root_trace s =
    let (root, s1) = new_root s in
    let (span, s2) = next_span_id s1 in continued_or_root root span s2

abbrev pub call_trace : Option CallContext → Counters → TraceContext × Counters
call_trace (some ctx) s = child_trace ctx s
call_trace none s = root_trace s

-- The header of `native_call`; `seq` is what the channel's counter hands out.
unfoldable pub call_header :
    Option CallContext → ℕ → ServiceRef → ℕ → ℕ → Counters → RpcHeader × Counters
unfolding child_trace new_root next_span_id continued_or_root request with_trace with_span_id
    with_seq
call_header current method_id service now seq s =
    let (sent, s1) = call_trace current s in
    let (header, s2) = request method_id service.id service.version now s1 in
    (with_seq (with_span_id (with_trace header sent) sent.parent_span_id) seq, s2)

-- A handler that serves a traced request and calls another service continues the trace: the request
-- that it sends, the answers to it and its Cancel all carry the trace id and flags of the request
-- being served, and name the handler's own span as the parent. Both span fields of the request are
-- that one span, and the request bears a correlation id of its own.
pub call_header-continues :
    (served : RpcHeader) (name method : Text) (method_id now seq : ℕ) (service : ServiceRef)
    (s s' : Counters) (kind : EventKind)
    → is_present (trace served) ≡ true
    → let ctx = (context_of served name method s).0 in
      let sent = (call_header (some ctx) method_id service now seq s').0 in
      let parent : TraceContext = record {
        trace_id = served.trace_id;
        parent_span_id = ctx.span_id;
        flags = served.flags;
      } in
      (trace sent ≡ parent)
      × (trace (response_from sent kind service.version now) ≡ parent)
      × (trace (cancel_from sent now) ≡ parent)
      × (sent.span_id ≡ sent.parent_span_id)
      × (sent.correlation_id ≡ (next_correlation_id s'.pid s'.correlation).0)
unfolding context_of call_header child_trace continued_or_root child_of trace request with_trace
    with_span_id with_seq response_from cancel_from fresh_id
call_header-continues served name method method_id now seq service s s' kind h =
    rw h (refl, refl, refl, refl, refl)
