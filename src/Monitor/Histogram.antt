-- ===== src/Monitor/Histogram.antt =====
-- ice-rpc-monitor/src/metrics.rs and metrics/render.rs: the histograms of the observer. A value and
-- its bounds are numbers in one unit, so that a sum is exact, and a quantile is a fraction.
pub mod Counted
pub mod Quantile
use ice_rpc.Common.{
  ℕ, ◌+◌, ◌-◌, ◌*◌, ◌/◌, ◌==◌, leb, Bool, true, false, Option, none, some, List, [], ◌∷◌, map,
  if◌then◌else◌,
}

pub record Histogram : Type 0 where
  pub buckets : List ℕ
  pub sum : ℕ
  pub count : ℕ

-- A bound, or above every bound.
pub data Upper : Type 0 where
  bound : ℕ → Upper
  infinity : Upper

unfoldable pub empty : List ℕ → Histogram
empty bounds = record { buckets = map (λ b. 0) bounds; sum = 0; count = 0 }

-- The slots zipped with the bounds: a slot without a bound stays.
unfoldable pub raise : ℕ → List ℕ → List ℕ → List ℕ
raise value [] bounds = []
raise value (slot ∷ slots) [] = slot ∷ slots
raise value (slot ∷ slots) (b ∷ bounds) =
    (if leb value b then slot + 1 else slot) ∷ raise value slots bounds

unfoldable pub observe : ℕ → List ℕ → Histogram → Histogram
unfolding raise
observe value bounds h = record {
  buckets = raise value h.buckets bounds;
  sum = h.sum + value;
  count = h.count + 1;
}

unfoldable pub add_slots : List ℕ → List ℕ → List ℕ
add_slots [] values = []
add_slots (slot ∷ slots) [] = slot ∷ slots
add_slots (slot ∷ slots) (value ∷ values) = (slot + value) ∷ add_slots slots values

unfoldable pub add_histogram : Histogram → Histogram → Histogram
unfolding add_slots
add_histogram merged h = record {
  buckets = add_slots merged.buckets h.buckets;
  sum = merged.sum + h.sum;
  count = merged.count + h.count;
}

-- The loop of `merge`, over what is merged already.
unfoldable pub merge_into : Histogram → List Histogram → Histogram
unfolding add_histogram
merge_into merged [] = merged
merge_into merged (h ∷ hs) = merge_into (add_histogram merged h) hs

unfoldable pub merge : List Histogram → List ℕ → Histogram
unfolding merge_into empty
merge hs bounds = merge_into (empty bounds) hs

-- `((q * count).ceil()).max(1)` for q = numerator / denominator.
unfoldable pub rank_of : ℕ → ℕ → ℕ → ℕ
rank_of numerator denominator count =
    let rank = (numerator * count + (denominator - 1)) / denominator in
    if leb 1 rank then rank else 1

unfoldable pub first_reaching : ℕ → List ℕ → List ℕ → Upper
first_reaching target [] bounds = infinity
first_reaching target (slot ∷ slots) [] = infinity
first_reaching target (slot ∷ slots) (b ∷ bounds) =
    let rest = first_reaching target slots bounds in if leb target slot then bound b else rest

unfoldable pub quantile : Histogram → List ℕ → ℕ → ℕ → Option Upper
unfolding rank_of first_reaching
quantile h bounds numerator denominator =
    if h.count == 0
    then none
    else some (first_reaching (rank_of numerator denominator h.count) h.buckets bounds)
