-- ===== src/Wire/CorrelationId/Bounds.antt =====
-- header.rs: the parser of correlation ids stays inside its array, and returns whole ids only.
use ice_rpc.Common.{
  ℕ, zero, suc, ◌+◌, ◌*◌, ◌/◌, ◌%◌, ◌<◌, ◌≡◌, refl, inl, inr, bit_or, Bool, true, false, ◌&&◌, some,
  List, [], ◌∷◌, ltb, leb, ◌==◌, if◌then◌else◌, length, set, get_or, replicate, arith, All,
  length-set, Bool-cases, Option-cases,
}
use ice_rpc.Common.Bytes.{IsByte, passes_under, passed}
use ice_rpc.Wire.CorrelationId.{
  Outcome, done, refused, panicked, is_dash_index, parse_digit, store_nibble, parse_loop, finish,
  dashed_form, parse_correlation_id,
}

or_table : passes_under (λ a. passes_under (λ b. ltb (bit_or a b) 256) 16) 256 ≡ true
unfolding passes_under
or_table = refl

bit_or-IsByte : (a b : ℕ) → IsByte a → b < 16 → IsByte (bit_or a b)
bit_or-IsByte a b h k = ground (
  arith,
  passed (λ b. ltb (bit_or a b) 256) 16 b k
      (passed (λ a. passes_under (λ b. ltb (bit_or a b) 256) 16) 256 a h or_table),
)

parse_digit-lt : (c : ℕ) {d : ℕ} → parse_digit c ≡ some d → d < 16
unfolding parse_digit
parse_digit-lt c h = ground arith

All-set : (xs : List ℕ) (i v : ℕ) → All IsByte xs → IsByte v → All IsByte (set xs i v)
All-set [] i v h k = tt
All-set (x ∷ xs) zero v h k = (k, h.1)
All-set (x ∷ xs) (suc i) v h k = (h.0, All-set xs i v h.1 k)

get_or-IsByte : (xs : List ℕ) (i : ℕ) → All IsByte xs → IsByte (get_or xs i 0)
get_or-IsByte [] i h = omega arith
get_or-IsByte (x ∷ xs) zero h = h.0
get_or-IsByte (x ∷ xs) (suc i) h = get_or-IsByte xs i h.1

-- Sixteen bytes.
pub record IsId (cid : List ℕ) : Type 0 where
  pub len : length cid ≡ 16
  pub bytes : All IsByte cid

store_nibble-IsId :
    (out : List ℕ) (n d : ℕ)
    → IsId out
    → n < 32
    → d < 16
    → (out' : List ℕ) × (store_nibble out n d ≡ done out') × IsId out'
unfolding store_nibble
store_nibble-IsId out n d v h k =
    let value = if n % 2 == 0 then d * 16 % 256 else bit_or (get_or out (n / 2) 0) d in
    (
      set out (n / 2) value,
      ground (arith, v.len),
      record {
        len = rw (length-set out (n / 2) value) v.len;
        bytes = All-set out (n / 2) value v.bytes (
            ground
              (arith, bit_or-IsByte (get_or out (n / 2) 0) d (get_or-IsByte out (n / 2) v.bytes)));
      },
    )

-- How many dashes the loop has still to meet from an index on.
abbrev dashes_left : ℕ → ℕ
dashes_left i =
    if leb i 8 then 4 else if leb i 13 then 3 else if leb i 18 then 2 else if leb i 23 then 1 else 0

-- How the nibbles read so far and the index go together.
abbrev InStep : Bool → ℕ → ℕ → ℕ → Type 0
InStep true i n left = (n + 4 ≡ i + dashes_left i) × (i + left ≡ 36)
InStep false i n left = n + left ≡ 32

abbrev IsSoundLoop : Outcome (ℕ × List ℕ) → Type 0
IsSoundLoop (done (n, out)) = IsId out
IsSoundLoop refused = Unit
IsSoundLoop panicked = ⊥

InStep-lt :
    (dashed : Bool) (i n left : ℕ)
    → InStep dashed i n (suc left)
    → (dashed && is_dash_index i) ≡ false
    → n < 32
InStep-lt true i n left h d = ground arith
InStep-lt false i n left h d = omega arith

InStep-digit :
    (dashed : Bool) (i n left : ℕ)
    → InStep dashed i n (suc left)
    → (dashed && is_dash_index i) ≡ false
    → InStep dashed (i + 1) (n + 1) left
InStep-digit true i n left h d = ground arith
InStep-digit false i n left h d = omega arith

InStep-dash :
    (dashed : Bool) (i n left : ℕ)
    → InStep dashed i n (suc left)
    → (dashed && is_dash_index i) ≡ true
    → InStep dashed (i + 1) n left
InStep-dash true i n left h d = ground arith
InStep-dash false i n left h d = cc

parse_loop-IsSound :
    (dashed : Bool) (i n : ℕ) (out bytes : List ℕ)
    → IsId out
    → InStep dashed i n (length bytes)
    → IsSoundLoop (parse_loop dashed i n out bytes)
unfolding parse_loop
parse_loop-IsSound dashed i n out [] v s = v
parse_loop-IsSound dashed i n out (b ∷ bytes) v s = elim (Bool-cases (dashed && is_dash_index i)) [
  | inl d ↦ elim (Bool-cases (b == b'-')) [
    | inl e ↦
        rw (d, e, parse_loop)
          (parse_loop-IsSound dashed (i + 1) n out bytes v (InStep-dash dashed i n _ s d))
    | inr e ↦ rw (d, e, parse_loop) tt
  ]
  | inr d ↦ elim (Option-cases (parse_digit b)) [
    | inl e ↦ rw (d, e, parse_loop) tt
    | inr (digit, e) ↦
        let (out', stored, v') =
          store_nibble-IsId out n digit v (InStep-lt dashed i n _ s d) (parse_digit-lt b e) in
        rw (d, e, stored, parse_loop)
          (parse_loop-IsSound dashed (i + 1) (n + 1) out' bytes v' (InStep-digit dashed i n _ s d))
  ]
]

-- What a call may answer: a whole id, or a refusal; no access out of bounds.
abbrev pub IsSound : Outcome (List ℕ) → Type 0
IsSound (done cid) = IsId cid
IsSound refused = Unit
IsSound panicked = ⊥

zeros-IsId : IsId (replicate 16 0)
zeros-IsId = omega arith

finish-IsSound : (r : Outcome (ℕ × List ℕ)) → IsSoundLoop r → IsSound (finish r)
unfolding finish
finish-IsSound (done (n, out)) h = ground arith
finish-IsSound refused h = tt
finish-IsSound panicked h = h

dashed_form-InStep :
    (len : ℕ) {dashed : Bool} → dashed_form len ≡ some dashed → InStep dashed 0 0 len
unfolding dashed_form
dashed_form-InStep len {dashed = true} h = ground arith
dashed_form-InStep len {dashed = false} h = ground arith

-- For every text the parser returns 16 bytes or `None`; it never indexes out of its array.
pub parse-IsSound : (text : List ℕ) → IsSound (parse_correlation_id text)
unfolding parse_correlation_id
parse-IsSound text = elim (Option-cases (dashed_form (length text))) [
  | inl e ↦ rw (e, parse_correlation_id) tt
  | inr (dashed, e) ↦
      rw (e, parse_correlation_id)
        (finish-IsSound _
          (parse_loop-IsSound dashed 0 0 (replicate 16 0) text zeros-IsId (dashed_form-InStep _ e)))
]
