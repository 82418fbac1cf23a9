-- ===== src/Wire/Trace.antt =====
-- ice-rpc/src/types/context.rs: the W3C trace context of a call, and the spans that continue it.
use ice_rpc.Common.{
  ℕ, ◌+◌, ◌*◌, ◌/◌, ◌%◌, ◌^◌, bit_or, bit_xor, Bool, true, not, ◌&&◌, List, [], ◌∷◌, ◌++◌, ◌==◌,
  if◌then◌else◌,
}
use ice_rpc.Common.Text.{codes}
use ice_rpc.Common.Digits.{be_bytes}
use ice_rpc.Wire.CorrelationId.{hex_bytes}
use ice_rpc.Wire.Fresh.{next_correlation_id}

pub record TraceContext : Type 0 where
  pub trace_id : List ℕ  -- [u8; 16]
  pub parent_span_id : ℕ  -- u64
  pub flags : ℕ  -- u8

abbrev pub all_zero : List ℕ → Bool
all_zero [] = true
all_zero (b ∷ bs) = b == 0 && all_zero bs

unfoldable pub is_present : TraceContext → Bool
is_present t = not (all_zero t.trace_id)

unfoldable pub is_sampled : TraceContext → Bool
is_sampled t = t.flags % 2 == 1

-- What the process hands out of its two counters: its id, the next correlation id, the next span.
pub record Counters : Type 0 where
  pub pid : ℕ  -- u32
  pub correlation : ℕ  -- u64
  pub span : ℕ  -- u64

unfoldable pub fresh_id : Counters → List ℕ × Counters
unfolding next_correlation_id
fresh_id s =
    let (id, counter) = next_correlation_id s.pid s.correlation in
    (id, record s { correlation = counter })

unfoldable pub new_root : Counters → TraceContext × Counters
unfolding fresh_id
new_root s =
    let (id, s') = fresh_id s in (record { trace_id = id; parent_span_id = 0; flags = 0 }, s')

unfoldable pub child_of : TraceContext → ℕ → TraceContext
child_of t span_id = record { trace_id = t.trace_id; parent_span_id = span_id; flags = t.flags }

unfoldable pub continued_or_root : TraceContext → ℕ → Counters → TraceContext × Counters
unfolding is_present child_of fresh_id
continued_or_root t span_id s =
    let (id, s') = fresh_id s in
    let root : TraceContext × Counters =
      (record { trace_id = id; parent_span_id = span_id; flags = t.flags }, s') in
    if is_present t then (child_of t span_id, s) else root

-- The splitmix finalizer over the process id and the counter, with the lowest bit set.
abbrev pub mix : ℕ → ℕ
mix z =
    let z1 : ℕ = bit_xor z (z / 2 ^ 30) * 0xbf58_476d_1ce4_e5b9 % 2 ^ 64 in
    let z2 : ℕ = bit_xor z1 (z1 / 2 ^ 27) * 0x94d0_49bb_1331_11eb % 2 ^ 64 in
    bit_xor z2 (z2 / 2 ^ 31)

unfoldable pub next_span_id : Counters → ℕ × Counters
next_span_id s =
    (bit_or (mix (bit_xor (s.pid * 2 ^ 32) s.span)) 1, record s { span = (s.span + 1) % 2 ^ 64 })

unfoldable pub traceparent : TraceContext → ℕ → List ℕ
traceparent t span_id =
    codes "00-"
    ++ (hex_bytes t.trace_id
        ++ (codes "-"
            ++ (hex_bytes (be_bytes 8 span_id) ++ (codes "-" ++ hex_bytes (t.flags ∷ [])))))
