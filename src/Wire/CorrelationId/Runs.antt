-- ===== src/Wire/CorrelationId/Runs.antt =====
-- header.rs: a run of printed bytes is read into the next free places of the id.
use ice_rpc.Common.{
  ℕ, zero, suc, ◌+◌, ◌*◌, ◌/◌, ◌%◌, ◌<◌, ◌≡◌, refl, ◌∙◌, bit_or, Bool, true, false, ◌&&◌, not, some,
  List, [], ◌∷◌, ◌++◌, ==_iff, ◌==◌, length, replicate, arith, All, set-append, get_or-append,
  append_assoc, append-nil, length-append,
}
use native.Mathlib.Nat.{suc-add}
use ice_rpc.Common.Bytes.{IsByte, passes_under, passed}
use ice_rpc.Wire.CorrelationId.{
  hex_digit, hex_bytes, done, is_dash_index, parse_digit, store_nibble, parse_loop,
}

pub parse_digit-hex_digit : (n : ℕ) → n < 16 → parse_digit (hex_digit n) ≡ some n
unfolding parse_digit
parse_digit-hex_digit n h = ground arith

pub amend_table : passes_under (λ b. bit_or (b / 16 * 16 % 256) (b % 16) == b) 256 ≡ true
unfolding passes_under
amend_table = refl

pub amended : (b : ℕ) → IsByte b → bit_or (b / 16 * 16 % 256) (b % 16) ≡ b
amended b h = (==_iff _ b).0 (passed _ 256 b h amend_table)

-- The first digit of a byte is written.
pub store_nibble_high :
    (pre rest : List ℕ) (z digit : ℕ)
    → store_nibble (pre ++ z ∷ rest) (2 * length pre) digit
      ≡ done (pre ++ (digit * 16 % 256) ∷ rest)
unfolding store_nibble
store_nibble_high pre rest z digit =
    let half : 2 * length pre / 2 ≡ length pre = omega arith in
    let even : 2 * length pre % 2 ≡ 0 = omega arith in
    rw half
      (ground (arith, even, length-append pre (z ∷ rest), set-append pre z rest (digit * 16 % 256)))

-- The second one is joined to it.
pub store_nibble_low :
    (pre rest : List ℕ) (high digit : ℕ)
    → store_nibble (pre ++ high ∷ rest) (2 * length pre + 1) digit
      ≡ done (pre ++ bit_or high digit ∷ rest)
unfolding store_nibble
store_nibble_low pre rest high digit =
    let half : (2 * length pre + 1) / 2 ≡ length pre = omega arith in
    let odd : (2 * length pre + 1) % 2 ≡ 1 = omega arith in
    rw (half, get_or-append pre high rest 0)
      (ground
        (arith, odd, length-append pre (high ∷ rest), set-append pre high rest (bit_or high digit)))

-- A digit that is read and stored moves the loop on.
pub parse_step :
    (dashed : Bool) (i n c digit : ℕ) (out out' cs : List ℕ)
    → (dashed && is_dash_index i) ≡ false
    → parse_digit c ≡ some digit
    → store_nibble out n digit ≡ done out'
    → parse_loop dashed i n out (c ∷ cs) ≡ parse_loop dashed (i + 1) (n + 1) out' cs
unfolding parse_loop
parse_step dashed i n c digit out out' cs d p s = rw (d, p, s, parse_loop)

-- The two digits of a byte are read into the next free place.
pub parse_pair :
    (dashed : Bool) (i b z : ℕ) (pre suf rest : List ℕ)
    → IsByte b
    → (dashed && is_dash_index i) ≡ false
    → (dashed && is_dash_index (i + 1)) ≡ false
    → parse_loop dashed i
        (2 * length pre)
        (pre ++ z ∷ suf)
        (hex_digit (b / 16) ∷ hex_digit (b % 16) ∷ rest)
      ≡ parse_loop dashed (i + 2) (2 * length pre + 2) (pre ++ b ∷ suf) rest
parse_pair dashed i b z pre suf rest h d d' =
    parse_step dashed i _ _ (b / 16) _ _ _ d (parse_digit-hex_digit (b / 16) (omega arith))
      (store_nibble_high pre suf z (b / 16))
    ∙ parse_step dashed (i + 1) _ _ (b % 16) _ _ _ d' (parse_digit-hex_digit (b % 16) (omega arith))
        (store_nibble_low pre suf (b / 16 * 16 % 256) (b % 16))
    ∙ rw (amended b h) (ground arith)

-- No dash stands at the n indices from i on.
abbrev pub clear : Bool → ℕ → ℕ → Bool
clear dashed i zero = true
clear dashed i (suc n) =
    not (dashed && is_dash_index i)
    && (not (dashed && is_dash_index (i + 1)) && clear dashed (i + 2) n)

-- A run of printed bytes is read into the next free places.
pub parse_group :
    (dashed : Bool) (i : ℕ) (pre bs rest : List ℕ) (spare : ℕ)
    → All IsByte bs
    → clear dashed i (length bs) ≡ true
    → parse_loop dashed i
        (2 * length pre)
        (pre ++ replicate (length bs + spare) 0)
        (hex_bytes bs ++ rest)
      ≡ parse_loop dashed
          (i + 2 * length bs)
          (2 * length (pre ++ bs))
          ((pre ++ bs) ++ replicate spare 0)
          rest
unfolding hex_bytes
parse_group dashed i pre [] rest spare h c = ground (arith, append-nil pre)
parse_group dashed i pre (b ∷ bs) rest spare h c =
    let more = length bs + spare in
    let c' : (not (dashed && is_dash_index i) ≡ true)
        × (not (dashed && is_dash_index (i + 1)) ≡ true)
        × (clear dashed (i + 2) (length bs) ≡ true) =
      ground arith in
    rw suc-add (
      parse_pair dashed i b 0 pre (replicate more 0) (hex_bytes bs ++ rest) h.0 (ground arith)
        (ground arith)
      ∙ ground (
        arith,
        append_assoc pre (b ∷ []) (replicate more 0),
        append_assoc pre (b ∷ []) bs,
        length-append pre (b ∷ []),
        parse_group dashed (i + 2) (pre ++ b ∷ []) bs rest spare h.1 c'.2,
      ))

-- The same between numerals, where the lengths are known.
pub parse_known :
    (dashed : Bool) (i n k spare : ℕ) (pre bs rest : List ℕ)
    → length pre ≡ n
    → length bs ≡ k
    → All IsByte bs
    → clear dashed i k ≡ true
    → parse_loop dashed i (2 * n) (pre ++ replicate (k + spare) 0) (hex_bytes bs ++ rest)
      ≡ parse_loop dashed (i + 2 * k) (2 * (n + k)) ((pre ++ bs) ++ replicate spare 0) rest
parse_known dashed i n k spare pre bs rest p q h c =
    rw (← p, ← q, ← length-append pre bs) (parse_group dashed i pre bs rest spare h (rw q c))

pub length-hex_bytes : (bs : List ℕ) → length (hex_bytes bs) ≡ 2 * length bs
unfolding hex_bytes
length-hex_bytes [] = refl
length-hex_bytes (b ∷ bs) = omega (arith, length-hex_bytes bs)
