-- ===== src/Wire/Header/Answers.antt =====
-- header.rs and wire.rs: what a peer reads of a header and of a kind.
use ice_rpc.Common.{ℕ, ◌<◌, ◌≡◌, arith}
use ice_rpc.Wire.Kind.{EventKind, as_u8, from_u8, is_terminal}
use ice_rpc.Wire.Event.{WireEvent}
use ice_rpc.Wire.Event

-- The wire byte of a kind reads back as the kind; a byte that no kind has reads as an error, so
-- that nothing corrupt is taken for a completion.
pub from_u8-as_u8 :
    (k : EventKind) (value : ℕ)
    → (from_u8 (as_u8 k) ≡ k) × (5 < value → from_u8 value ≡ EventKind.error)
unfolding from_u8 as_u8
from_u8-as_u8 k value = (back k, λ h. ground arith)
  where
    back : (k : EventKind) → from_u8 (as_u8 k) ≡ k
    back k = ground arith

-- The kind byte of a sample says whether its event ends the stream, with no look at the payload.
pub is_terminal-kind {ℓ κ} :
    {T : Type ℓ} {E : Type κ} (w : WireEvent T E)
    → is_terminal (from_u8 (as_u8 (Event.kind w))) ≡ Event.is_terminal w
unfolding from_u8 as_u8 Event.kind Event.is_terminal is_terminal
is_terminal-kind w = ground arith
