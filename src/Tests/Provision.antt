-- ===== src/Tests/Provision.antt =====
-- Runs of publication, wake-ups, registration, rejections and calls made by a handler.
use native.Mathlib.Decide.{ℕ_discrete}
use ice_rpc.Common.{ℕ, ◌≡◌, refl, arith, true, false, some, List, [], ◌∷◌, ltb, if◌then◌else◌}
use ice_rpc.Common.Text.{codes}
use ice_rpc.Common.Result.{ok}
use ice_rpc.Rx.Event.{Event, timeout, technical, serialization_error}
use ice_rpc.Wire.Kind.{EventKind}
use ice_rpc.Wire.Fresh.{next_correlation_id}
use ice_rpc.Wire.Trace.{TraceContext, is_present}
use ice_rpc.Wire.Header.{RpcHeader, ServiceRef, trace, response_from, cancel_from}
use ice_rpc.Transport.Dispatcher.{ServiceDispatcher}
use ice_rpc.Transport.Responses.{collect_emitter}
use ice_rpc.Transport.Client.{contains}
use ice_rpc.Transport.EndToEnd.{deliver}
use ice_rpc.Transport.Publish.{Look, Answer, publish_until_delivered}
use ice_rpc.Transport.Publish.Delivery.{deliveries, publish_until_delivered-answers}
use ice_rpc.Transport.Registration.{
  RegisteredChannelService, ChannelRegistry, register_native_service, start_registered_channels,
}
use ice_rpc.Transport.Registration.Unique.{IsValid, registry-IsValid}
use ice_rpc.Transport.Undecodable.{emit_rpc_error, reject_undecodable, emit_rpc_error-delivered}
use ice_rpc.Transport.Request.{context_of, call_header, call_header-continues}
use ice_rpc.Tests.Samples.{
  plain_codec, plain_codec-IsRoundTrip, plain_codec-IsTotal, waiting, counters, echo_header,
  echo_service,
}

-- A provider connects at the third turn; the deadline is behind the fifth.
abbrev schedule : ℕ → Look
schedule n = record {
  shutdown = false;
  subscribers = if ltb n 2 then 0 else 1;
  late = ltb 4 n;
  sends = ok true;
  terminates = false;
}

publish_until_delivered-answers_example :
    (a : Answer) × (publish_until_delivered 6 schedule 0 0 ≡ (some a, deliveries a))
publish_until_delivered-answers_example =
    publish_until_delivered-answers 5 6 0 0 schedule refl (omega arith)

abbrev waiting_registry : ChannelRegistry
waiting_registry = record {
  sealed = false;
  pending = (codes "db", record { name = codes "Echo"; dispatcher = echo_service } ∷ []) ∷ [];
  spawned = [];
}

registry-IsValid_example :
    ((channel : List ℕ) (svc : RegisteredChannelService)
      → IsValid (register_native_service channel svc waiting_registry).1)
    × IsValid (start_registered_channels waiting_registry)
unfolding IsValid
registry-IsValid_example = registry-IsValid waiting_registry (((refl, tt), tt), tt)

abbrev second_service : ServiceDispatcher
second_service = record { service = record { id = 78; version = 2 }; handlers = [] }

emit_rpc_error-delivered_example :
    let q =
      deliver ℕ_discrete plain_codec 9
        (emit_rpc_error plain_codec collect_emitter timeout []).0
        waiting in
    ((q.inbox 9).events ≡ Event.error (technical timeout) ∷ [])
    × (contains ℕ_discrete 9 q.handlers ≡ false)
    × ((reject_undecodable plain_codec collect_emitter []).0
        ≡ (emit_rpc_error plain_codec collect_emitter serialization_error []).0)
unfolding ℕ_discrete
emit_rpc_error-delivered_example =
    emit_rpc_error-delivered ℕ_discrete plain_codec plain_codec-IsRoundTrip plain_codec-IsTotal
      timeout 9 waiting (refl, refl)

abbrev traced : RpcHeader
traced = record echo_header { trace_id = 1 ∷ []; flags = 1 }

abbrev callee : ServiceRef
callee = record { id = 90; version = 3 }

call_header-continues_example :
    let ctx = (context_of traced (codes "Echo") (codes "say") counters).0 in
    let sent = (call_header (some ctx) 5 callee 2000 8 counters).0 in
    let parent : TraceContext = record {
      trace_id = 1 ∷ [];
      parent_span_id = ctx.span_id;
      flags = 1;
    } in
    (trace sent ≡ parent)
    × (trace (response_from sent EventKind.complete 3 2000) ≡ parent)
    × (trace (cancel_from sent 2000) ≡ parent)
    × (sent.span_id ≡ sent.parent_span_id)
    × (sent.correlation_id ≡ (next_correlation_id 4321 17).0)
unfolding is_present trace
call_header-continues_example =
    call_header-continues traced (codes "Echo") (codes "say") 5 2000 8 callee counters counters
      EventKind.complete refl
