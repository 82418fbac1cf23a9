-- ===== src/Wire/CorrelationId.antt =====
-- ice-rpc/src/types/header.rs: the text form of a correlation id, printed and parsed.
pub mod Runs
pub mod RoundTrip
pub mod Bounds
use ice_rpc.Common.{
  ℕ, zero, suc, ◌+◌, ◌-◌, ◌*◌, ◌/◌, ◌%◌, bit_or, Bool, true, false, ◌&&◌, ◌||◌, Option, none, some,
  List, [], ◌∷◌, ◌++◌, ltb, leb, ◌==◌, if◌then◌else◌, length, set, get_or, take, drop, replicate,
}

abbrev pub correlation_id_len : ℕ
correlation_id_len = 16

-- A lowercase hexadecimal digit, as `{:x}` prints it.
abbrev pub hex_digit : ℕ → ℕ
hex_digit n = if ltb n 10 then b'0' + n else b'a' + (n - 10)

-- `{:02x}` of each byte.
pub hex_bytes : List ℕ → List ℕ
hex_bytes [] = []
hex_bytes (b ∷ bs) = hex_digit (b / 16) ∷ hex_digit (b % 16) ∷ hex_bytes bs

-- The groups of the format string, 4-2-2-2-6 bytes.
pub fmt_correlation_id : List ℕ → List ℕ
fmt_correlation_id cid =
    hex_bytes (take 4 cid)
    ++ (b'-'
        ∷ (hex_bytes (take 2 (drop 4 cid))
            ++ (b'-'
                ∷ (hex_bytes (take 2 (drop 6 cid))
                    ++ (b'-'
                        ∷ (hex_bytes (take 2 (drop 8 cid)) ++ (b'-' ∷ hex_bytes (drop 10 cid))))))))

-- What the parser can do: return, return `None`, or index out of the array's bounds.
pub data Outcome {ℓ} (A : Type ℓ) : Type ℓ where
  done : A → Outcome A
  refused : Outcome A
  panicked : Outcome A

abbrev pub is_dash_index : ℕ → Bool
is_dash_index i = i == 8 || (i == 13 || (i == 18 || i == 23))

pub parse_digit : ℕ → Option ℕ
parse_digit b =
    if leb b'0' b && leb b b'9'
    then some (b - b'0')
    else if leb b'a' b && leb b b'f'
    then some (b - b'a' + 10)
    else if leb b'A' b && leb b b'F'
    then some (b - b'A' + 10)
    else none

-- `out[nibbles / 2]` is written, or amended, by a `u8`.
pub store_nibble : List ℕ → ℕ → ℕ → Outcome (List ℕ)
store_nibble out nibbles digit =
    if ltb (nibbles / 2) (length out)
    then done (
        set out (nibbles / 2) (
          if nibbles % 2 == 0 then digit * 16 % 256 else bit_or (get_or out (nibbles / 2) 0) digit))
    else panicked

-- The loop over the bytes: index, nibbles read so far, array.
pub parse_loop : Bool → ℕ → ℕ → List ℕ → List ℕ → Outcome (ℕ × List ℕ)
parse_loop dashed index nibbles out [] = done (nibbles, out)
parse_loop dashed index nibbles out (byte ∷ bytes) = elim (dashed && is_dash_index index) [
  | true ↦ elim (byte == b'-') [
    | true ↦ parse_loop dashed (index + 1) nibbles out bytes
    | false ↦ refused
  ]
  | false ↦ elim (parse_digit byte) [
    | none ↦ refused
    | some digit ↦ elim (store_nibble out nibbles digit) [
      | done out' ↦ parse_loop dashed (index + 1) (nibbles + 1) out' bytes
      | refused ↦ refused
      | panicked ↦ panicked
    ]
  ]
]

-- `(nibbles == CORRELATION_ID_LEN * 2).then_some(out)`
pub finish : Outcome (ℕ × List ℕ) → Outcome (List ℕ)
finish (done (nibbles, out)) = if nibbles == 32 then done out else refused
finish refused = refused
finish panicked = panicked

-- Which form a text of this length has; `none` is the early return.
pub dashed_form : ℕ → Option Bool
dashed_form len =
    if len == correlation_id_len * 2
    then some false
    else if len == correlation_id_len * 2 + 4
    then some true
    else none

pub parse_correlation_id : List ℕ → Outcome (List ℕ)
unfolding parse_loop finish parse_digit store_nibble dashed_form
parse_correlation_id bytes = elim (dashed_form (length bytes)) [
  | none ↦ refused
  | some dashed ↦ finish (parse_loop dashed 0 0 (replicate correlation_id_len 0) bytes)
]
