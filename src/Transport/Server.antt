-- ===== src/Transport/Server.antt =====
-- ice-rpc/src/transport/server.rs: what the provider's thread does with a sample of the request
-- channel.
pub mod Verdict
pub mod Effects
pub mod Registry
use ice_rpc.Common.{
  ℕ, Bool, true, false, not, Option, none, some, List, [], ◌∷◌, ◌++◌, ◌==◌, if◌then◌else◌,
}
use ice_rpc.Common.Text.{codes}
use ice_rpc.Common.Digits.{be_bytes, decimal}
use ice_rpc.Rx.Event.{
  RpcError, Text, protocol_mismatch, unknown_method, unknown_service, incompatible_version,
}
use ice_rpc.Wire.CorrelationId.{hex_bytes}
use ice_rpc.Wire.Kind.{EventKind, request, next, complete, error, rpc_error, cancel}
use ice_rpc.Wire.Header.{RpcHeader, ServiceRef, protocol_version, kind_of}
use ice_rpc.Transport.Codec.{Bytes}
use ice_rpc.Transport.Dispatcher.{Task, DispatchedRequest, ServiceDispatcher, get, insert, dispatch}
use ice_rpc.Transport.Hub.{Bus, ResponseHub, CancellableCall, register, publish, publish_each}
use ice_rpc.Transport.Hub

-- `{:#010x}` of a `u32`.
unfoldable pub hex_id : ℕ → Text
hex_id id = codes "0x" ++ hex_bytes (be_bytes 4 id)

pub data RequestRejection : Type 0 where
  protocol : (actual : ℕ) → RequestRejection
  service_version : (expected actual : ℕ) → RequestRejection

unfoldable pub classify : ServiceDispatcher → RpcHeader → Option RequestRejection
classify d h =
    if not (h.protocol == protocol_version)
    then some (protocol h.protocol)
    else if not (h.service_version == d.service.version)
    then some (service_version d.service.version h.service_version)
    else none

unfoldable pub rejection_error : RequestRejection → RpcError
rejection_error (protocol actual) = protocol_mismatch (
    codes "protocol_version " ++ (decimal 5 actual ++ (codes " != " ++ decimal 5 protocol_version)))
rejection_error (service_version expected actual) = incompatible_version expected actual

-- The table of a channel's services; the later one of an id takes the place of the earlier.
unfoldable pub service_table :
    List (ℕ × ServiceDispatcher) → List ServiceDispatcher → List (ℕ × ServiceDispatcher)
service_table table [] = table
service_table table (d ∷ ds) = service_table (insert d.service.id d table) ds

-- What `run_or_spawn` is given.
pub data Started : Type 0 where
  nothing : Started
  detached : RpcHeader → Task → Started
  cancellable : CancellableCall → Started

module _ (bus : Bus) (encode : RpcError → Option Bytes) where
  abbrev pub emit_encoded : Option Bytes → RpcHeader → ResponseHub → ResponseHub
  emit_encoded none header hub = hub
  emit_encoded (some bytes) header hub = (publish bus rpc_error header bytes hub).0

  -- An error that does not encode is logged only.
  unfoldable pub reject : RpcHeader → RpcError → ResponseHub → ResponseHub
  unfolding publish
  reject header e hub = emit_encoded (encode e) header hub

  -- `hub.emitter(header)`, as a handler that is called uses it.
  unfoldable pub emitter : RpcHeader → List (EventKind × Bytes) → ResponseHub → ResponseHub
  unfolding publish_each
  emitter header samples hub = (publish_each bus header samples hub).0

  abbrev pub begin : ResponseHub × Option DispatchedRequest → RpcHeader → ResponseHub × Started
  begin (hub, none) header = (reject header (unknown_method (hex_id header.method_id)) hub, nothing)
  begin (hub, some d) header =
      let (token, hub') = register header.correlation_id hub in
      if d.expects_response
      then (hub', cancellable (record { request = header; token = token; task = d.task }))
      else (hub, detached header d.task)

  abbrev pub admit :
      Option RequestRejection
      → ServiceDispatcher
      → RpcHeader
      → Bytes
      → ResponseHub
      → ResponseHub × Started
  admit (some r) d header payload hub = (reject header (rejection_error r) hub, nothing)
  admit none d header payload hub =
      begin (dispatch (emitter header) d header.method_id header payload hub) header

  abbrev pub select :
      Option ServiceDispatcher → RpcHeader → Bytes → ResponseHub → ResponseHub × Started
  select none header payload hub =
      (reject header (unknown_service (hex_id header.service_id)) hub, nothing)
  select (some d) header payload hub = admit (classify d header) d header payload hub

  abbrev pub on_kind :
      EventKind
      → List (ℕ × ServiceDispatcher)
      → RpcHeader
      → Bytes
      → ResponseHub
      → ResponseHub × Started
  on_kind request table header payload hub = select (get header.service_id table) header payload hub
  on_kind cancel table header payload hub = ((Hub.cancel header.correlation_id hub).1, nothing)
  on_kind _ table header payload hub = (hub, nothing)

  unfoldable pub handle_request :
      List (ℕ × ServiceDispatcher) → RpcHeader → Bytes → ResponseHub → ResponseHub × Started
  unfolding reject classify rejection_error hex_id dispatch emitter register kind_of
  handle_request table header payload hub = on_kind (kind_of header) table header payload hub
