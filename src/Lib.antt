-- ===== src/Lib.antt =====
-- ice-rpc: remote calls over shared memory, modelled from its Rust sources.
--
-- A provider's handler answers a call with a stream of events (ice-rpc-rx). The bridge
-- (ice-rpc/src/transport/bridge.rs) turns the stream into wire events, folding a last value with
-- its end, and frames each as a sample with a kind byte; the server side (server.rs) publishes the
-- samples under the header of the request, and the caller's side (client.rs) finds the call by its
-- correlation id, decodes the sample, and feeds the stream that the caller reads. A caller that
-- drops its stream early publishes a Cancel, which ends the handler's task. The observer
-- (ice-rpc-monitor) reads the same samples from outside.
--
-- Files, and the code that each models:
--   Rx/Event          ice-rpc-rx/src/error.rs and event.rs: errors and events.
--   Rx/Stream         ice-rpc-rx/src/stream.rs: poll_next, recv, next, first_event, last_event,
--                     collect_values. What a wrapped stream answers, poll by poll, is a list of
--                     polls (`Script`), so that a theorem over every script covers every schedule.
--   Rx/Polls          stream.rs: a consumer's polls of an operator's poll_next, and what it reads, the
--                     values and how they end (`Reading`), which forgets the schedule.
--   Rx/Filtering, Rx/Transforming, Rx/Combining, Rx/Conditional, Rx/Utility, Rx/Recovery
--                     ice-rpc-rx/src/transform/filtering.rs, transforming.rs, combining.rs,
--                     conditional.rs, utility.rs and error_handling.rs: an operator is its struct's
--                     fields and its poll_next. Closures are functions without a state of their own.
--                     What the clock, a flag or a notifier shows is listed poll by poll; the attempts
--                     of retry_with are those of an `Environment`.
--   Rx/Creation, Rx/Consuming
--                     creation.rs, transform/terminals.rs and subscribe.rs. A future is how often it
--                     is pending and what it resolves to; callbacks are logged.
--   Rx/Subject        subject.rs: each operation is one step under its lock; a subscriber's channel
--                     is the list of what was sent into it.
--   Rx/Cancel         rt/cancel.rs: the token, with poll_cancelled in the steps between which
--                     `cancel` can run.
--   Wire/Kind, Wire/Header, Wire/Hash, Wire/CorrelationId, Wire/Fresh
--                     ice-rpc/src/types/header.rs: kinds, header constructors, FNV-1a ids, printing,
--                     parsing and drawing of correlation ids. Bytes are numbers, text is its bytes.
--   Wire/Event        ice-rpc/src/types/wire.rs: the wire event and its two conversions.
--   Wire/Trace        ice-rpc/src/types/context.rs: the trace context.
--   Wire/Buckets      ice-rpc/src/hash.rs: the two hashers.
--   Transport/Codec   what the code uses of rkyv: a parameter, with two hypotheses, that what was
--                     encoded decodes to itself and that every value encodes.
--   Transport/Fold, Transport/Responses, Transport/Dispatcher
--                     bridge.rs: WireFolding, observable_to_responses, ServiceDispatcher.
--   Transport/Client  client.rs: the handler map, a call's handler, release and cancellation. The
--                     unbounded channel behind a call is the list of what was sent into it.
--   Transport/Hub, Transport/Server
--                     server.rs: InFlightCalls, ResponseHub, CancellableCall, RequestRejection,
--                     handle_request. A handler is the samples
--                     that its call emits at once and the `Task` of its future, the samples that each of its
--                     polls emits. What iceoryx2 does with a sample, and the clock, are the
--                     functions of a `Bus`; Transport/Server/Registry interleaves the samples that
--                     arrive with the polls of the live calls as a step relation.
--   Transport/Registration
--                     server.rs: register_native_service and start_registered_channels.
--   Transport/Serve   server.rs: spawn_native_service, the thread of one channel.
--   Transport/Publish publish.rs: the loop that publishes a request; each turn takes one `Look` at
--                     the runtime and the bus from a schedule.
--   Transport/Notify  notify.rs: coalesced wake-ups.
--   Transport/Undecodable
--                     bridge.rs: emit_rpc_error and the answers to requests that do not decode.
--   Transport/Ambient ice-rpc/src/types/context.rs: the thread's ambient call and cancellation, and
--                     the scopes that set and restore them.
--   Transport/Open    open.rs: how failures to open a service are reported, and retry_open. What
--                     iceoryx2 answers is an argument.
--   Transport/Pump    pump.rs and waitset.rs: the receive loop of a dispatch thread, over a schedule
--                     of what its surroundings answer at each turn.
--   Transport/Request context.rs and client.rs: the context of a served call, and the header of a
--                     call that is made.
--   Monitor/Loss, Monitor/Correlate
--                     ice-rpc-monitor/src/loss.rs and correlate.rs. A hash map is the list of its
--                     entries in the order in which its iterator yields them.
--   Monitor/Metrics   ice-rpc-monitor/src/metrics.rs: the counters the collector writes. A map is a
--                     function that is zero where there is no entry, and a histogram is the list of
--                     what it was given.
--   Monitor/Collector ice-rpc-monitor/src/collector.rs: `process` and all it calls in
--                     Monitor/Collector/Samples, the periodic work in Monitor/Collector/Upkeep, and
--                     their interleavings as a step relation in Monitor/Collector/Reachable. The
--                     decoders, the formatting and the liveness of a process are functions; the
--                     trace sink is the list of the records it was given.
--   Monitor/Histogram metrics.rs and metrics/render.rs: histograms, their merge and their quantiles.
--                     Floats are numbers in one unit.
--   Monitor/Traces    ice-rpc-monitor/src/traces.rs: the trace sink, its queue and its writer thread.
--   Monitor/Health    ice-rpc-monitor/src/health.rs: the throttled scan and the walk over directories,
--                     with the types of ice-rpc/src/monitor/inventory.rs.
--                     What the system reports at a scan is an argument.
--   Service/Order, Service/Locator
--                     ice-rpc/src/locator.rs: topological_order, and the registry of the process with
--                     its cache of proxies and its start. A map is the list of its entries in the
--                     order of its iterator; what a service's `init` answers stands in its entry.
--   Service/Shutdown  ice-rpc/src/shutdown.rs: what is awaited at the end of a process, as a log.
--   Tests             runs on concrete inputs.
--
-- topological_order takes one pass more than there are services as fuel, and comes out with it; the
-- receive loop takes the turns of its schedule; retry_open counts its attempts down. The loops over
-- polls take fuel, one unit for each poll, and the theorems about them show that one poll more than the
-- script has is enough; retry_with has one round for each attempt of its policy.
-- Sequence numbers wrap at 64 bits as written, and a theorem that excludes the wrap says so; the
-- observer's counters are not bounded. Locks are taken for one operation at a time in the code, so an
-- operation is one step here.
--
-- Not modelled: the ports and the wait sets of iceoryx2 themselves, the executor and its timers, the
-- JSON and HTTP gateway, the macros, the bindings, the observer's start-up and console, the attaching
-- to channels, and the texts of its exports. A subscriber that loses samples in its own buffer is
-- outside the end-to-end statement, which takes a transport that delivers what was published.
pub mod Common
pub mod Tests
pub mod Rx
pub mod Wire
pub mod Transport
pub mod Monitor
pub mod Service
