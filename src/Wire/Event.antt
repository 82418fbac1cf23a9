-- ===== src/Wire/Event.antt =====
-- ice-rpc/src/types/wire.rs: what the transport serializes, and its conversions from and to the
-- events of a stream.
use ice_rpc.Common.{Bool, true, false, Option, none, some}
use ice_rpc.Rx.Event.{RpcError, business, technical, empty}
use ice_rpc.Rx.Event.{Event}
use ice_rpc.Wire.Kind.{EventKind}

pub data WireEvent {ℓ κ} (T : Type ℓ) (E : Type κ) : Type (ℓ ⊔ κ) where
  next : T → WireEvent T E
  complete : WireEvent T E
  complete_with : T → WireEvent T E
  error : E → WireEvent T E
  rpc_error : RpcError → WireEvent T E

module _ {ℓ κ} {T : Type ℓ} {E : Type κ} where
  unfoldable pub is_terminal : WireEvent T E → Bool
  is_terminal (next v) = false
  is_terminal _ = true

  unfoldable pub kind : WireEvent T E → EventKind
  kind (next v) = EventKind.next
  kind complete = EventKind.complete
  kind (complete_with v) = EventKind.complete
  kind (error e) = EventKind.error
  kind (rpc_error e) = EventKind.rpc_error

  unfoldable pub from_event : Event T E → WireEvent T E
  from_event (Event.next v) = next v
  from_event Event.complete = complete
  from_event (Event.error (business e)) = error e
  from_event (Event.error (technical e)) = rpc_error e
  from_event (Event.error empty) = complete

  unfoldable pub normalize_wire_event : WireEvent T E → Event T E × Option (Event T E)
  normalize_wire_event (next v) = (Event.next v, none)
  normalize_wire_event complete = (Event.complete, none)
  normalize_wire_event (complete_with v) = (Event.next v, some Event.complete)
  normalize_wire_event (error e) = (Event.error (business e), none)
  normalize_wire_event (rpc_error e) = (Event.error (technical e), none)
