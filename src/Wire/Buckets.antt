-- ===== src/Wire/Buckets.antt =====
-- ice-rpc/src/hash.rs: the hashers of the maps that are keyed by ids. A hasher is its 64-bit state.
pub mod Apart
use ice_rpc.Common.{
  ℕ, zero, suc, ◌+◌, ◌*◌, ◌/◌, ◌%◌, ◌^◌, bit_xor, List, [], ◌∷◌, ◌==◌, length, take, drop,
  if◌then◌else◌,
}

-- SEED.
abbrev pub seed : ℕ
seed = 0x517c_c1b7_2722_0a95

abbrev pub rotate_left : ℕ → ℕ
rotate_left h = h * 2 ^ 5 % 2 ^ 64 + h / 2 ^ 59

unfoldable pub add : ℕ → ℕ → ℕ
add word h = bit_xor (rotate_left h) word * seed % 2 ^ 64

-- `u64::from_le_bytes`; missing bytes are zero.
abbrev pub from_le_bytes : List ℕ → ℕ
from_le_bytes [] = 0
from_le_bytes (b ∷ bs) = b + 256 * from_le_bytes bs

unfoldable pub add_chunks : ℕ → List ℕ → ℕ → ℕ
unfolding add
add_chunks zero bytes h = h
add_chunks (suc n) bytes h = add_chunks n (drop 8 bytes) (add (from_le_bytes (take 8 bytes)) h)

unfoldable pub write : List ℕ → ℕ → ℕ
unfolding add_chunks
write bytes h =
    let n = length bytes / 8 in
    let tail = drop (n * 8) bytes in
    let whole = add_chunks n bytes h in
    if length tail == 0 then whole else add (from_le_bytes tail) whole

unfoldable pub finish : ℕ → ℕ
finish h =
    let h1 : ℕ = bit_xor h (h / 2 ^ 32) in
    let h2 : ℕ = h1 * 0xd6e8_feb8_6659_fd93 % 2 ^ 64 in bit_xor h2 (h2 / 2 ^ 32)

-- `write_u32` and `finish` of the identity hasher.
unfoldable pub identity_hash : ℕ → ℕ
identity_hash value = value
