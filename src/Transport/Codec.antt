-- ===== src/Transport/Codec.antt =====
-- What the two sides use of rkyv: encoding into bytes that may fail, and decoding that may fail.
-- ice-rpc/src/transport/mod.rs wraps the decoder (`decode_aligned`); its errors are known by their
-- printed text only.
use ice_rpc.Common.{◌≡◌, Option, some, List, ℕ}
use ice_rpc.Common.Result.{Result, ok}
use ice_rpc.Rx.Event.{Text, RpcError}
use ice_rpc.Wire.Event.{WireEvent}

abbrev pub Bytes : Type 0
Bytes = List ℕ

pub record Codec {ℓ κ} (T : Type ℓ) (E : Type κ) : Type (ℓ ⊔ κ) where
  pub encode_wire : WireEvent T E → Option Bytes
  pub encode_rpc_error : RpcError → Option Bytes
  pub decode_wire : Bytes → Result (WireEvent T E) Text
  pub decode_rpc_error : Bytes → Result RpcError Text

-- What rkyv documents: what was encoded decodes to the same value.
pub record IsRoundTrip {ℓ κ} {T : Type ℓ} {E : Type κ} (c : Codec T E) : Type (ℓ ⊔ κ) where
  pub wire : (w : WireEvent T E) (b : Bytes) → c.encode_wire w ≡ some b → c.decode_wire b ≡ ok w
  pub rpc_error :
      (e : RpcError) (b : Bytes) → c.encode_rpc_error e ≡ some b → c.decode_rpc_error b ≡ ok e

-- No value of the service is too large to encode.
pub record IsTotal {ℓ κ} {T : Type ℓ} {E : Type κ} (c : Codec T E) : Type (ℓ ⊔ κ) where
  pub wire_total : (w : WireEvent T E) → (b : Bytes) × (c.encode_wire w ≡ some b)
  pub rpc_error_total : (e : RpcError) → (b : Bytes) × (c.encode_rpc_error e ≡ some b)
