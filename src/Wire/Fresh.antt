-- ===== src/Wire/Fresh.antt =====
-- ice-rpc/src/types/header.rs: fresh correlation ids, from the process id and a counter.
use Prim.Native.Nat.{ℕ, ◌+◌, ◌%◌, ◌^◌, ◌<◌}
use ice_rpc.Common.{
  ◌≡◌, ap, sym, ◌∙◌, List, ◌++◌, take, drop, arith, length-append, take-append, drop-append,
  All-append,
}
use ice_rpc.Common.Bytes.{IsByte}
use ice_rpc.Common.Digits.{be_bytes, length-be_bytes, be_bytes-IsByte, be_bytes-injective}
use ice_rpc.Wire.CorrelationId.Bounds.{IsId}

-- The new id, and the counter behind it: `fetch_add` wraps at 64 bits.
unfoldable pub next_correlation_id : ℕ → ℕ → List ℕ × ℕ
next_correlation_id pid counter = (be_bytes 8 pid ++ be_bytes 8 counter, (counter + 1) % 2 ^ 64)

pub next_correlation_id-IsId : (pid counter : ℕ) → IsId (next_correlation_id pid counter).0
unfolding next_correlation_id
next_correlation_id-IsId pid counter = record {
  len = omega (
    arith,
    length-append (be_bytes 8 pid) (be_bytes 8 counter),
    length-be_bytes 8 pid,
    length-be_bytes 8 counter,
  );
  bytes = All-append IsByte (be_bytes 8 pid) _ (be_bytes-IsByte 8 pid) (be_bytes-IsByte 8 counter);
}

-- Two ids of 16 bytes are equal only if they come from the same process id and counter: within 2^64
-- calls no two calls on a machine share an id, as long as no two live processes share a pid.
pub next_correlation_id-injective :
    (p c q d : ℕ)
    → p < 2 ^ 32
    → q < 2 ^ 32
    → c < 2 ^ 64
    → d < 2 ^ 64
    → (next_correlation_id p c).0 ≡ (next_correlation_id q d).0
    → (p ≡ q) × (c ≡ d)
unfolding next_correlation_id
next_correlation_id-injective p c q d hp hq hc hd e = (
  be_bytes-injective 8 p q (omega arith) (omega arith) (
      sym (take-append 8 (be_bytes 8 p) (be_bytes 8 c) (length-be_bytes 8 p))
      ∙ ap (take 8) e
      ∙ take-append 8 (be_bytes 8 q) (be_bytes 8 d) (length-be_bytes 8 q)),
  be_bytes-injective 8 c d (omega arith) (omega arith) (
      sym (drop-append 8 (be_bytes 8 p) (be_bytes 8 c) (length-be_bytes 8 p))
      ∙ ap (drop 8) e
      ∙ drop-append 8 (be_bytes 8 q) (be_bytes 8 d) (length-be_bytes 8 q)),
)
