-- ===== src/Wire/Hash/Collisions.antt =====
-- header.rs: which names cannot share an id.
use ice_rpc.Common.{ℕ, ◌*◌, ◌%◌, ◌^◌, ◌<◌, ◌≡◌, refl, sym, ◌∙◌, List, [], ◌∷◌, ◌++◌, arith, All}
use ice_rpc.Common.Bytes.{IsByte}
use ice_rpc.Common.Xor.{bit_xor_comm, bit_xor-injective, bit_xor_lt}
use ice_rpc.Wire.Hash.{prime, offset_basis, round, fnv1a_from, service_id_of}

round_lt : (hash byte : ℕ) → round hash byte < 2 ^ 32
unfolding round
round_lt hash byte = omega arith

fnv1a_from-lt : (hash : ℕ) (bytes : List ℕ) → hash < 2 ^ 32 → fnv1a_from hash bytes < 2 ^ 32
unfolding fnv1a_from
fnv1a_from-lt hash [] h = h
fnv1a_from-lt hash (byte ∷ bytes) h = fnv1a_from-lt (round hash byte) bytes (round_lt hash byte)

-- The prime is odd, so multiplying by it in 32 bits can be undone.
mul_prime-injective :
    (a b : ℕ) → a < 2 ^ 32 → b < 2 ^ 32 → a * prime % 2 ^ 32 ≡ b * prime % 2 ^ 32 → a ≡ b
mul_prime-injective a b h k e = omega arith

round-injective :
    (h j byte : ℕ) → h < 2 ^ 32 → j < 2 ^ 32 → IsByte byte → round h byte ≡ round j byte → h ≡ j
unfolding round
round-injective h j byte p q b e = bit_xor-injective h j byte (
    mul_prime-injective _ _ (bit_xor_lt 32 h byte p (omega arith))
      (bit_xor_lt 32 j byte q (omega arith)) e)

round-injective_byte :
    (h a b : ℕ) → h < 2 ^ 32 → IsByte a → IsByte b → round h a ≡ round h b → a ≡ b
unfolding round
round-injective_byte h a b p q r e = bit_xor-injective a b h (
    bit_xor_comm a h
    ∙ mul_prime-injective _ _ (bit_xor_lt 32 h a p (omega arith))
        (bit_xor_lt 32 h b p (omega arith)) e
    ∙ bit_xor_comm h b)

fnv1a_from-injective :
    (h j : ℕ) (bytes : List ℕ)
    → h < 2 ^ 32
    → j < 2 ^ 32
    → All IsByte bytes
    → fnv1a_from h bytes ≡ fnv1a_from j bytes
    → h ≡ j
unfolding fnv1a_from
fnv1a_from-injective h j [] p q b e = e
fnv1a_from-injective h j (x ∷ bytes) p q b e =
    round-injective h j x p q b.0
      (fnv1a_from-injective (round h x) (round j x) bytes (round_lt h x) (round_lt j x) b.1 e)

fnv1a_from-append :
    (h : ℕ) (xs ys : List ℕ) → fnv1a_from h (xs ++ ys) ≡ fnv1a_from (fnv1a_from h xs) ys
unfolding fnv1a_from
fnv1a_from-append h [] ys = refl
fnv1a_from-append h (x ∷ xs) ys = fnv1a_from-append (round h x) xs ys

-- Two names that differ in one byte only never share an id: if they hash to the same 32 bits, that
-- byte is the same.
pub service_id_of-one_byte :
    (pre suf : List ℕ) (a b : ℕ)
    → All IsByte suf
    → IsByte a
    → IsByte b
    → service_id_of (pre ++ a ∷ suf) ≡ service_id_of (pre ++ b ∷ suf)
    → a ≡ b
unfolding service_id_of
service_id_of-one_byte pre suf a b s p q e =
    let start = fnv1a_from-lt offset_basis pre (omega arith) in
    let h = fnv1a_from offset_basis pre in
    round-injective_byte h a b start p q (
      fnv1a_from-injective _ _ suf (round_lt h a) (round_lt h b) s (
        sym (fnv1a_from-append offset_basis pre (a ∷ suf))
        ∙ e
        ∙ fnv1a_from-append offset_basis pre (b ∷ suf)))

-- A collision of two names with a common ending is one of what stands in front of the ending.
pub service_id_of-suffix :
    (xs ys suf : List ℕ)
    → All IsByte suf
    → service_id_of (xs ++ suf) ≡ service_id_of (ys ++ suf)
    → service_id_of xs ≡ service_id_of ys
unfolding service_id_of
service_id_of-suffix xs ys suf s e =
    fnv1a_from-injective _ _ suf (fnv1a_from-lt offset_basis xs (omega arith))
      (fnv1a_from-lt offset_basis ys (omega arith)) s
      (sym (fnv1a_from-append offset_basis xs suf) ∙ e ∙ fnv1a_from-append offset_basis ys suf)
