-- ===== src/Monitor/Histogram/Quantile.antt =====
-- render.rs: what a quantile of merged histograms says of the observed values.
use ice_rpc.Common.{
  ℕ, ◌+◌, ◌≤◌, ◌<◌, ◌≡◌, refl, ap, ◌∙◌, arith, ◌==◌, leb, Bool, true, false, none, some, List, [],
  ◌∷◌, ◌++◌, map, length, All, if◌then◌else◌, ◌⊎◌, inl, inr,
}
use native.Mathlib.Nat.{le-div_iff_mul-le, mul_comm, mul-suc, zero-lt-suc}
use ice_rpc.Common.{Bool-cases, zero, subst, suc, ◌*◌, ◌-◌, ◌/◌}
use ice_rpc.Monitor.Histogram.{Upper, bound, infinity, merge, rank_of, first_reaching, quantile}
use ice_rpc.Monitor.Histogram.Counted.{within, joined, observed, histogram_of, merge-joined}

-- The first of the bounds that holds `target` of the values, or none does.
abbrev pub IsFirst : List ℕ → List ℕ → ℕ → Upper → Type 0
IsFirst bounds vs target infinity = All (λ b. within b vs < target) bounds
IsFirst bounds vs target (bound b) =
    (front : List ℕ) × (back : List ℕ) × (bounds ≡ front ++ b ∷ back)
    × All (λ c. within c vs < target) front
    × (target ≤ within b vs)

IsFirst-later :
    (b : ℕ) (bounds vs : List ℕ) (target : ℕ) (u : Upper)
    → within b vs < target
    → IsFirst bounds vs target u
    → IsFirst (b ∷ bounds) vs target u
IsFirst-later b bounds vs target infinity low h = (low, h)
IsFirst-later b bounds vs target (bound c) low (front, back, eq, all, high) =
    (b ∷ front, back, ap (λ r. b ∷ r) eq, (low, all), high)

first_reaching-IsFirst :
    (bounds vs : List ℕ) (target : ℕ)
    → IsFirst bounds vs target (first_reaching target (map (λ b. within b vs) bounds) bounds)
unfolding first_reaching
first_reaching-IsFirst [] vs target = tt
first_reaching-IsFirst (b ∷ bounds) vs target =
    go (leb target (within b vs)) refl (first_reaching-IsFirst bounds vs target)
  where
    go :
        (r : Bool)
        → leb target (within b vs) ≡ r
        → IsFirst bounds vs target (first_reaching target (map (λ c. within c vs) bounds) bounds)
        → IsFirst
            (b ∷ bounds)
            vs
            target
            (if r then bound b else first_reaching target (map (λ c. within c vs) bounds) bounds)
    go true h rec = ([], bounds, refl, tt, ground arith)
    go false h rec = IsFirst-later b bounds vs target _ (ground arith) rec

quantile-some :
    (bounds vs : List ℕ) (v n d : ℕ)
    → quantile (histogram_of bounds (v ∷ vs)) bounds n d
      ≡ some (
          first_reaching
            (rank_of n d (length (v ∷ vs)))
            (map (λ b. within b (v ∷ vs)) bounds)
            bounds)
unfolding quantile
quantile-some bounds vs v n d =
    let counted : (length (v ∷ vs) == 0) ≡ false = ground arith in
    ap
      (λ b.
        if b
        then none
        else some (
            first_reaching (rank_of n d (length (v ∷ vs))) (map (λ b. within b (v ∷ vs)) bounds)
              bounds))
      counted

-- At least the share n / d of the values, and at least one, are at most this bound.
abbrev pub HasShare : ℕ → ℕ → List ℕ → ℕ → Type 0
HasShare n d vs b = (n * length vs ≤ d * within b vs) × (1 ≤ within b vs)

abbrev pub LacksShare : ℕ → ℕ → List ℕ → ℕ → Type 0
LacksShare n d vs b = (d * within b vs < n * length vs) ⊎ (within b vs ≡ 0)

-- The first of the bounds that has the share, or that none has it.
abbrev pub IsQuantile : ℕ → ℕ → List ℕ → List ℕ → Upper → Type 0
IsQuantile n d bounds vs infinity = All (LacksShare n d vs) bounds
IsQuantile n d bounds vs (bound b) =
    (front : List ℕ) × (back : List ℕ) × (bounds ≡ front ++ b ∷ back)
    × All (LacksShare n d vs) front
    × HasShare n d vs b

-- A number is below the rounded quotient exactly if its multiple is below the dividend.
ceil_lt : (x k w : ℕ) → w < (x + k) / suc k → suc k * w < x
ceil_lt x k w h =
    let below : suc w * suc k ≤ x + k = (le-div_iff_mul-le (zero-lt-suc k)).0 h in
    let split : suc w * suc k ≡ suc k * w + suc k = mul_comm (suc w) (suc k) ∙ mul-suc (suc k) w in
    omega arith

ceil_le : (x k w : ℕ) → (x + k) / suc k ≤ w → x ≤ suc k * w
ceil_le x k w h = elim (Bool-cases (leb x (suc k * w))) [
  | inl low ↦ ground arith
  | inr high ↦
      let far : suc k * w < x = ground arith in
      let split : suc w * suc k ≡ suc k * w + suc k =
        mul_comm (suc w) (suc k) ∙ mul-suc (suc k) w in
      let above : suc w ≤ (x + k) / suc k = (le-div_iff_mul-le (zero-lt-suc k)).1 (omega arith) in
      absurd (omega arith)
]

rank_of-reached : (n k c w : ℕ) → rank_of n (suc k) c ≤ w → (n * c ≤ suc k * w) × (1 ≤ w)
unfolding rank_of
rank_of-reached n k c w h =
    let same : suc k - 1 ≡ k = omega arith in
    let high : 1 ≤ w = ground arith in
    let low : (n * c + (suc k - 1)) / suc k ≤ w = ground arith in
    (ceil_le (n * c) k w (subst (λ j. (n * c + j) / suc k ≤ w) same low), high)

rank_of-missed : (n k c w : ℕ) → w < rank_of n (suc k) c → (suc k * w < n * c) ⊎ (w ≡ 0)
unfolding rank_of
rank_of-missed n k c w h =
    let same : suc k - 1 ≡ k = omega arith in
    let cases : (w < (n * c + (suc k - 1)) / suc k) ⊎ (w ≡ 0) = ground arith in
    elim cases [
      | inl below ↦ inl (ceil_lt (n * c) k w (subst (λ j. w < (n * c + j) / suc k) same below))
      | inr none_yet ↦ inr none_yet
    ]

LacksShare-all :
    (n k : ℕ) (vs front : List ℕ)
    → All (λ b. within b vs < rank_of n (suc k) (length vs)) front
    → All (LacksShare n (suc k) vs) front
LacksShare-all n k vs [] h = tt
LacksShare-all n k vs (b ∷ front) (low, rest) =
    (rank_of-missed n k (length vs) (within b vs) low, LacksShare-all n k vs front rest)

IsFirst-IsQuantile :
    (n k : ℕ) (bounds vs : List ℕ) (u : Upper)
    → IsFirst bounds vs (rank_of n (suc k) (length vs)) u
    → IsQuantile n (suc k) bounds vs u
IsFirst-IsQuantile n k bounds vs infinity h = LacksShare-all n k vs bounds h
IsFirst-IsQuantile n k bounds vs (bound b) (front, back, eq, low, high) = (
  front,
  back,
  eq,
  LacksShare-all n k vs front low,
  rank_of-reached n k (length vs) (within b vs) high,
)

-- A quantile n / d read from merged histograms, where d is not 0: none when nothing was observed;
-- otherwise the first of the bounds such that at least the share n / d of all the observed values, and
-- at least one of them, are at most there, and infinity when no bound has so many.
pub quantile-IsQuantile :
    (bounds : List ℕ) (groups : List (List ℕ)) (n d : ℕ)
    → 0 < d
    → ((joined groups ≡ [])
        × (quantile (merge (map (observed bounds) groups) bounds) bounds n d ≡ none))
      ⊎ ((u : Upper) × (quantile (merge (map (observed bounds) groups) bounds) bounds n d ≡ some u)
          × IsQuantile n d bounds (joined groups) u)
unfolding quantile
quantile-IsQuantile bounds groups n zero h = absurd (omega arith)
quantile-IsQuantile bounds groups n (suc k) h =
    go (joined groups) (ap (λ m. quantile m bounds n (suc k)) (merge-joined bounds groups))
  where
    go :
        (vs : List ℕ)
        → quantile (merge (map (observed bounds) groups) bounds) bounds n (suc k)
          ≡ quantile (histogram_of bounds vs) bounds n (suc k)
        → ((vs ≡ [])
            × (quantile (merge (map (observed bounds) groups) bounds) bounds n (suc k) ≡ none))
          ⊎ ((u : Upper) × (quantile (merge (map (observed bounds) groups) bounds) bounds n (suc k)
                ≡ some u)
              × IsQuantile n (suc k) bounds vs u)
    go [] eq = inl (refl, eq)
    go (v ∷ vs) eq = inr (
      _,
      eq ∙ quantile-some bounds vs v n (suc k),
      IsFirst-IsQuantile n k bounds (v ∷ vs) _ (first_reaching-IsFirst bounds (v ∷ vs) _),
    )
