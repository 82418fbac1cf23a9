-- ===== src/Wire/Buckets/Apart.antt =====
-- hash.rs: which keys cannot share a hash.
use Prim.Native.Nat.{bit_xor-bitwise}
use native.Mathlib.Nat.{pow-suc}
use ice_rpc.Common.{
  ℕ, zero, suc, ◌*◌, ◌/◌, ◌%◌, ◌^◌, ◌<◌, ◌≡◌, refl, sym, ap, ◌∙◌, bit_xor, arith, List, [], ◌∷◌,
  ◌++◌, All, length, take, drop, length-append, append-nil, drop-drop, take-append, drop-append,
  ◌⊎◌, inl, inr,
}
use ice_rpc.Common.Bytes.{IsByte}
use ice_rpc.Common.Xor.{bit_xor_step, bit_xor_comm, bit_xor_cancel, bit_xor-injective, bit_xor_lt}
use ice_rpc.Wire.Buckets.{seed, rotate_left, add, from_le_bytes, add_chunks, write, finish}

mul_seed-injective :
    (a b : ℕ) → a < 2 ^ 64 → b < 2 ^ 64 → a * seed % 2 ^ 64 ≡ b * seed % 2 ^ 64 → a ≡ b
mul_seed-injective a b h k e = omega arith

mul_mix-injective :
    (a b : ℕ)
    → a < 2 ^ 64
    → b < 2 ^ 64
    → a * 0xd6e8_feb8_6659_fd93 % 2 ^ 64 ≡ b * 0xd6e8_feb8_6659_fd93 % 2 ^ 64
    → a ≡ b
mul_mix-injective a b h k e = omega arith

bit_xor_half : (a b : ℕ) → bit_xor a b / 2 ≡ bit_xor (a / 2) (b / 2)
bit_xor_half a b = omega (arith, bit_xor_step a b)

abbrev halved : ℕ → ℕ → ℕ
halved zero a = a
halved (suc k) a = halved k (a / 2)

halved-bit_xor : (k a b : ℕ) → halved k (bit_xor a b) ≡ bit_xor (halved k a) (halved k b)
halved-bit_xor zero a b = refl
halved-bit_xor (suc k) a b = ap (halved k) (bit_xor_half a b) ∙ halved-bit_xor k (a / 2) (b / 2)

halved_word : (a : ℕ) → halved 32 a ≡ a / 2 ^ 32
halved_word a = omega arith

bit_xor_high : (a b : ℕ) → bit_xor a b / 2 ^ 32 ≡ bit_xor (a / 2 ^ 32) (b / 2 ^ 32)
bit_xor_high a b =
    sym (halved_word (bit_xor a b))
    ∙ halved-bit_xor 32 a b
    ∙ ap (λ x. bit_xor x (halved 32 b)) (halved_word a)
    ∙ ap (bit_xor (a / 2 ^ 32)) (halved_word b)

bit_xor_zero : (a : ℕ) → bit_xor a 0 ≡ a
bit_xor_zero a = bit_xor_comm a 0 ∙ bit_xor-bitwise 0 a

-- Folding the high half into the low half can be undone.
fold_undone :
    (x : ℕ) → x < 2 ^ 64 → (let y : ℕ = bit_xor x (x / 2 ^ 32) in bit_xor y (y / 2 ^ 32)) ≡ x
fold_undone x h =
    let gone : x / 2 ^ 32 / 2 ^ 32 ≡ 0 = omega arith in
    let high : bit_xor x (x / 2 ^ 32) / 2 ^ 32 ≡ x / 2 ^ 32 =
      bit_xor_high x (x / 2 ^ 32) ∙ ap (bit_xor (x / 2 ^ 32)) gone ∙ bit_xor_zero (x / 2 ^ 32) in
    ap (bit_xor (bit_xor x (x / 2 ^ 32))) high ∙ bit_xor_cancel x (x / 2 ^ 32)

fold-injective :
    (x y : ℕ) → x < 2 ^ 64 → y < 2 ^ 64 → bit_xor x (x / 2 ^ 32) ≡ bit_xor y (y / 2 ^ 32) → x ≡ y
fold-injective x y h k e =
    sym (fold_undone x h) ∙ ap (λ (z : ℕ). bit_xor z (z / 2 ^ 32)) e ∙ fold_undone y k

finish-injective : (a b : ℕ) → a < 2 ^ 64 → b < 2 ^ 64 → finish a ≡ finish b → a ≡ b
unfolding finish
finish-injective a b h k e =
    let low_a = bit_xor_lt 64 a (a / 2 ^ 32) h (omega arith) in
    let low_b = bit_xor_lt 64 b (b / 2 ^ 32) k (omega arith) in
    fold-injective a b h k
      (mul_mix-injective _ _ low_a low_b (fold-injective _ _ (omega arith) (omega arith) e))

rotate_left-injective : (a b : ℕ) → a < 2 ^ 64 → b < 2 ^ 64 → rotate_left a ≡ rotate_left b → a ≡ b
rotate_left-injective a b h k e = omega arith

rotate_left_lt : (a : ℕ) → a < 2 ^ 64 → rotate_left a < 2 ^ 64
rotate_left_lt a h = omega arith

add_lt : (w h : ℕ) → add w h < 2 ^ 64
unfolding add
add_lt w h = omega arith

-- A round loses neither the word nor the state.
add-injective_word : (v w h : ℕ) → v < 2 ^ 64 → w < 2 ^ 64 → h < 2 ^ 64 → add v h ≡ add w h → v ≡ w
unfolding add
add-injective_word v w h p q r e =
    let low = rotate_left_lt h r in
    bit_xor-injective v w (rotate_left h) (
      bit_xor_comm v (rotate_left h)
      ∙ mul_seed-injective _ _ (bit_xor_lt 64 (rotate_left h) v low p)
          (bit_xor_lt 64 (rotate_left h) w low q) e
      ∙ bit_xor_comm (rotate_left h) w)

add-injective_state : (w g h : ℕ) → w < 2 ^ 64 → g < 2 ^ 64 → h < 2 ^ 64 → add w g ≡ add w h → g ≡ h
unfolding add
add-injective_state w g h p q r e =
    let low_g = rotate_left_lt g q in
    let low_h = rotate_left_lt h r in
    rotate_left-injective g h q r (
      bit_xor-injective (rotate_left g) (rotate_left h) w (
        mul_seed-injective _ _ (bit_xor_lt 64 (rotate_left g) w low_g p)
          (bit_xor_lt 64 (rotate_left h) w low_h p) e))

from_le_bytes_lt : (bs : List ℕ) → All IsByte bs → from_le_bytes bs < 256 ^ length bs
from_le_bytes_lt [] a = omega arith
from_le_bytes_lt (b ∷ bs) a = omega (arith, pow-suc 256 (length bs), from_le_bytes_lt bs a.1, a.0)

from_le_bytes-injective :
    (as' bs : List ℕ)
    → All IsByte as'
    → All IsByte bs
    → length as' ≡ length bs
    → from_le_bytes as' ≡ from_le_bytes bs
    → as' ≡ bs
from_le_bytes-injective [] [] p q l e = refl
from_le_bytes-injective [] (b ∷ bs) p q l e = absurd (omega arith)
from_le_bytes-injective (a ∷ as') [] p q l e = absurd (omega arith)
from_le_bytes-injective (a ∷ as') (b ∷ bs) (pa, p) (qb, q) l e =
    let same : a ≡ b = omega arith in
    let rest = from_le_bytes-injective as' bs p q (omega arith) (omega arith) in cc

word_lt : (bs : List ℕ) → length bs ≡ 8 → All IsByte bs → from_le_bytes bs < 2 ^ 64
word_lt bs h a = rw (← ap (λ (n : ℕ). 256 ^ n) h) (from_le_bytes_lt bs a)

-- A key of two words.
write_two :
    (pre suf : List ℕ) (h : ℕ)
    → length pre ≡ 8
    → length suf ≡ 8
    → write (pre ++ suf) h ≡ add (from_le_bytes suf) (add (from_le_bytes pre) h)
unfolding write add_chunks
write_two pre suf h p q =
    let len : length (pre ++ suf) ≡ 16 = omega (arith, length-append pre suf) in
    let whole : take 8 suf ≡ suf = ap (take 8) (sym (append-nil suf)) ∙ take-append 8 suf [] q in
    let none' : drop 16 (pre ++ suf) ≡ [] =
      sym (drop-drop 8 8 (pre ++ suf))
      ∙ ap (drop 8) (drop-append 8 pre suf p)
      ∙ ap (drop 8) (sym (append-nil suf))
      ∙ drop-append 8 suf [] q in
    rw (len, none', take-append 8 pre suf p, drop-append 8 pre suf p, whole) refl

-- Two correlation ids that agree in one of their halves, as the ids of one process do, never share a
-- hash: from any state of the hasher, equal hashes mean equal ids.
pub write-apart :
    (pre qre suf tuf : List ℕ) (h : ℕ)
    → h < 2 ^ 64
    → length pre ≡ 8
    → length qre ≡ 8
    → length suf ≡ 8
    → length tuf ≡ 8
    → All IsByte pre
    → All IsByte qre
    → All IsByte suf
    → All IsByte tuf
    → (pre ≡ qre) ⊎ (suf ≡ tuf)
    → finish (write (pre ++ suf) h) ≡ finish (write (qre ++ tuf) h)
    → (pre ≡ qre) × (suf ≡ tuf)
write-apart pre qre suf tuf h low lp lq ls lt bp bq bs bt same e = elim same [
  | inl s ↦
      let states : add (from_le_bytes pre) h ≡ add (from_le_bytes qre) h =
        ap (λ x. add (from_le_bytes x) h) s in
      (
        s,
        from_le_bytes-injective suf tuf bs bt (ls ∙ sym lt) (
            add-injective_word _ _ (add (from_le_bytes qre) h) ws wt (add_lt _ h)
              (sym (ap (add (from_le_bytes suf)) states) ∙ words)),
      )
  | inr s ↦
      let last : add (from_le_bytes suf) (add (from_le_bytes qre) h)
          ≡ add (from_le_bytes tuf) (add (from_le_bytes qre) h) =
        ap (λ x. add (from_le_bytes x) (add (from_le_bytes qre) h)) s in
      (
        from_le_bytes-injective pre qre bp bq (lp ∙ sym lq) (
            add-injective_word _ _ h wp wq low (
              add-injective_state (from_le_bytes suf) _ _ ws (add_lt _ h) (add_lt _ h)
                (words ∙ sym last))),
        s,
      )
]
  where
    words :
        add (from_le_bytes suf) (add (from_le_bytes pre) h)
        ≡ add (from_le_bytes tuf) (add (from_le_bytes qre) h)
    words =
        finish-injective _ _ (add_lt _ _) (add_lt _ _)
          (sym (ap finish (write_two pre suf h lp ls)) ∙ e ∙ ap finish (write_two qre tuf h lq lt))

    ws : from_le_bytes suf < 2 ^ 64
    ws = word_lt suf ls bs

    wt : from_le_bytes tuf < 2 ^ 64
    wt = word_lt tuf lt bt

    wp : from_le_bytes pre < 2 ^ 64
    wp = word_lt pre lp bp

    wq : from_le_bytes qre < 2 ^ 64
    wq = word_lt qre lq bq
