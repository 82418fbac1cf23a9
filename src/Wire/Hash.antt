-- ===== src/Wire/Hash.antt =====
-- ice-rpc/src/types/header.rs: the FNV-1a hash behind the service and method ids.
pub mod Collisions
use ice_rpc.Common.{ℕ, ◌*◌, ◌%◌, ◌^◌, bit_xor, List, [], ◌∷◌}

abbrev pub offset_basis : ℕ
offset_basis = 0x811c_9dc5

abbrev pub prime : ℕ
prime = 0x0100_0193

-- One round: `hash ^= byte; hash = hash.wrapping_mul(PRIME)` in 32 bits.
unfoldable pub round : ℕ → ℕ → ℕ
round hash byte = bit_xor hash byte * prime % 2 ^ 32

unfoldable pub fnv1a_from : ℕ → List ℕ → ℕ
unfolding round
fnv1a_from hash [] = hash
fnv1a_from hash (byte ∷ bytes) = fnv1a_from (round hash byte) bytes

unfoldable pub fnv1a_u32 : List ℕ → ℕ
unfolding fnv1a_from
fnv1a_u32 bytes = fnv1a_from offset_basis bytes

unfoldable pub service_id_of : List ℕ → ℕ
unfolding fnv1a_u32
service_id_of name = fnv1a_u32 name

unfoldable pub method_id_of : List ℕ → ℕ
unfolding fnv1a_u32
method_id_of name = fnv1a_u32 name
