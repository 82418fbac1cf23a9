-- ===== src/Rx/Event.antt =====
-- ice-rpc-rx/src/error.rs and event.rs: technical errors, the error a stream carries, its events.
use ice_rpc.Common.{ℕ, Bool, true, false, Option, none, some, List}

-- The bytes of a `String`.
abbrev pub Text : Type 0
Text = List ℕ

pub data RpcError : Type 0 where
  serialization_error : RpcError
  transport_error : Text → RpcError
  timeout : RpcError
  cancelled : RpcError
  internal : Text → RpcError
  protocol_mismatch : Text → RpcError
  unknown_method : Text → RpcError
  unknown_service : Text → RpcError
  incompatible_version : (expected actual : ℕ) → RpcError

unfoldable pub is_retryable : RpcError → Bool
is_retryable (transport_error m) = true
is_retryable timeout = true
is_retryable _ = false

pub data ObservableError {κ} (E : Type κ) : Type κ where
  business : E → ObservableError E
  technical : RpcError → ObservableError E
  empty : ObservableError E

pub data Event {ℓ κ} (T : Type ℓ) (E : Type κ) : Type (ℓ ⊔ κ) where
  next : T → Event T E
  complete : Event T E
  error : ObservableError E → Event T E

module _ {ℓ κ} {T : Type ℓ} {E : Type κ} where
  unfoldable pub is_terminal : Event T E → Bool
  is_terminal (next v) = false
  is_terminal complete = true
  is_terminal (error e) = true

module _ {κ} {E : Type κ} where
  unfoldable pub is_technical : ObservableError E → Bool
  is_technical (technical e) = true
  is_technical _ = false

  unfoldable pub is_business : ObservableError E → Bool
  is_business (business e) = true
  is_business _ = false

  unfoldable pub as_business : ObservableError E → Option E
  as_business (business e) = some e
  as_business _ = none

  unfoldable pub as_technical : ObservableError E → Option RpcError
  as_technical (technical e) = some e
  as_technical _ = none
