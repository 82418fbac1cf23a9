-- ===== src/Monitor/Histogram/Counted.antt =====
-- metrics.rs and render.rs: what the buckets and a merge say of the observed values.
use ice_rpc.Common.{
  ℕ, ◌+◌, ◌≡◌, refl, ap, sym, ◌∙◌, arith, leb, List, [], ◌∷◌, ◌++◌, map, length, length-append,
  if◌then◌else◌, append_assoc, append-nil,
}
use ice_rpc.Monitor.Histogram.{
  Histogram, empty, raise, observe, add_slots, add_histogram, merge_into, merge,
}

-- How many of the values are at most the bound.
abbrev pub within : ℕ → List ℕ → ℕ
within b [] = 0
within b (v ∷ vs) = if leb v b then within b vs + 1 else within b vs

abbrev pub total : List ℕ → ℕ
total [] = 0
total (v ∷ vs) = total vs + v

-- The histogram that these values have by definition.
abbrev pub histogram_of : List ℕ → List ℕ → Histogram
histogram_of bounds vs = record {
  buckets = map (λ b. within b vs) bounds;
  sum = total vs;
  count = length vs;
}

abbrev made : List ℕ → ℕ → ℕ → Histogram
made b s c = record { buckets = b; sum = s; count = c }

Histogram-eq :
    {b b' : List ℕ} {s s' c c' : ℕ} → b ≡ b' → s ≡ s' → c ≡ c' → made b s c ≡ made b' s' c'
Histogram-eq {b' = b'} {s = s} {s' = s'} {c = c} p q r =
    ap (λ x. made x s c) p ∙ ap (λ x. made b' x c) q ∙ ap (made b' s') r

-- What observing the values leaves; the latest value stands first.
abbrev pub observed : List ℕ → List ℕ → Histogram
unfolding observe empty
observed bounds [] = empty bounds
observed bounds (v ∷ vs) = observe v bounds (observed bounds vs)

raise-within :
    (v : ℕ) (vs bounds : List ℕ)
    → raise v (map (λ b. within b vs) bounds) bounds ≡ map (λ b. within b (v ∷ vs)) bounds
unfolding raise
raise-within v vs [] = refl
raise-within v vs (b ∷ bounds) =
    ap (λ r. (if leb v b then within b vs + 1 else within b vs) ∷ r) (raise-within v vs bounds)

pub observed-histogram_of : (bounds vs : List ℕ) → observed bounds vs ≡ histogram_of bounds vs
unfolding observed observe empty
observed-histogram_of bounds [] = refl
observed-histogram_of bounds (v ∷ vs) =
    ap (observe v bounds) (observed-histogram_of bounds vs)
    ∙ Histogram-eq (raise-within v vs bounds) refl (omega arith)

within-append : (b : ℕ) (vs ws : List ℕ) → within b (vs ++ ws) ≡ within b vs + within b ws
within-append b [] ws = omega arith
within-append b (v ∷ vs) ws = ground (arith, within-append b vs ws)

total-append : (vs ws : List ℕ) → total (vs ++ ws) ≡ total vs + total ws
total-append [] ws = omega arith
total-append (v ∷ vs) ws = ground (arith, total-append vs ws)

add_slots-within :
    (vs ws bounds : List ℕ)
    → add_slots (map (λ b. within b vs) bounds) (map (λ b. within b ws) bounds)
      ≡ map (λ b. within b (vs ++ ws)) bounds
unfolding add_slots
add_slots-within vs ws [] = refl
add_slots-within vs ws (b ∷ bounds) =
    ap (λ r. r ∷ add_slots (map (λ c. within c vs) bounds) (map (λ c. within c ws) bounds))
      (sym (within-append b vs ws))
    ∙ ap (λ r. within b (vs ++ ws) ∷ r) (add_slots-within vs ws bounds)

add_histogram-append :
    (bounds vs ws : List ℕ)
    → add_histogram (histogram_of bounds vs) (histogram_of bounds ws)
      ≡ histogram_of bounds (vs ++ ws)
unfolding add_histogram
add_histogram-append bounds vs ws =
    Histogram-eq (add_slots-within vs ws bounds) (sym (total-append vs ws))
      (sym (length-append vs ws))

abbrev pub joined : List (List ℕ) → List ℕ
joined [] = []
joined (vs ∷ groups) = vs ++ joined groups

merge_into-joined :
    (bounds : List ℕ) (groups : List (List ℕ)) (vs : List ℕ)
    → merge_into (histogram_of bounds vs) (map (observed bounds) groups)
      ≡ histogram_of bounds (vs ++ joined groups)
unfolding merge_into
merge_into-joined bounds [] vs = ap (histogram_of bounds) (sym (append-nil vs))
merge_into-joined bounds (ws ∷ groups) vs =
    ap (λ h. merge_into h (map (observed bounds) groups))
      (ap (add_histogram (histogram_of bounds vs)) (observed-histogram_of bounds ws)
        ∙ add_histogram-append bounds vs ws)
    ∙ merge_into-joined bounds groups (vs ++ ws)
    ∙ ap (histogram_of bounds) (append_assoc vs ws (joined groups))

-- A merge of histograms is the histogram of all that was observed in any of them.
pub merge-joined :
    (bounds : List ℕ) (groups : List (List ℕ))
    → merge (map (observed bounds) groups) bounds ≡ histogram_of bounds (joined groups)
unfolding merge empty
merge-joined bounds groups = merge_into-joined bounds groups []
