-- ===== src/Monitor/Loss/Total.antt =====
-- loss.rs: what the reported losses of a publisher add up to when its numbers come in their order.
use ice_rpc.Common.{
  ℕ, suc, ◌+◌, ◌^◌, ◌<◌, ◌≡◌, refl, arith, Bool, true, false, some, List, [], ◌∷◌, ◌==◌,
  if◌then◌else◌, Bool-cases, ==_iff, inl, inr,
}
use ice_rpc.Monitor.Loss.{LossTracker, last_of, put, observe}

last_of-put :
    (p q s : ℕ) (last : List (ℕ × ℕ))
    → last_of q (put p s last) ≡ (if p == q then some s else last_of q last)
unfolding last_of put
last_of-put p q s [] = refl
last_of-put p q s ((r, t) ∷ last) = ground (arith, last_of-put p q s last)

-- The losses that are reported for one publisher over a list of observations.
pub losses : ℕ → LossTracker → List (ℕ × ℕ) → ℕ
losses p t [] = 0
losses p t ((q, seq) ∷ os) =
    let (n, t') = observe q seq t in let rest = losses p t' os in if q == p then n + rest else rest

-- How many observations are the publisher's, and the last number it showed.
abbrev pub count_of : ℕ → List (ℕ × ℕ) → ℕ
count_of p [] = 0
count_of p ((q, seq) ∷ os) = if q == p then suc (count_of p os) else count_of p os

abbrev pub final : ℕ → ℕ → List (ℕ × ℕ) → ℕ
final p previous [] = previous
final p previous ((q, seq) ∷ os) = final p (if q == p then seq else previous) os

-- The publisher's own numbers rise, whatever the others do in between; they fit 64 bits.
abbrev pub IsRising : ℕ → ℕ → List (ℕ × ℕ) → Type 0
IsRising p previous [] = previous < 2 ^ 64
IsRising p previous ((q, seq) ∷ os) =
    (q ≡ p → previous < seq) × IsRising p (if q == p then seq else previous) os

IsRising-lt : (p previous : ℕ) (os : List (ℕ × ℕ)) → IsRising p previous os → previous < 2 ^ 64
IsRising-lt p previous [] h = h
IsRising-lt p previous ((q, seq) ∷ os) (rises, rest) =
    let after = IsRising-lt p (if q == p then seq else previous) os rest in
    elim (Bool-cases (q == p)) [
      | inl e ↦
          let low = rises ((==_iff q p).0 e) in let up : seq < 2 ^ 64 = ground arith in omega arith
      | inr e ↦ ground arith
    ]

last_of-observe :
    (p q s : ℕ) (t : LossTracker)
    → last_of p (observe q s t).1.last ≡ (if q == p then some s else last_of p t.last)
unfolding observe
last_of-observe p q s t = last_of-put q p s t.last

after_observe :
    (p previous q s : ℕ) (t : LossTracker)
    → last_of p t.last ≡ some previous
    → last_of p (observe q s t).1.last ≡ some (if q == p then s else previous)
after_observe p previous q s t h =
    let e = last_of-observe p q s t in
    elim (Bool-cases (q == p)) [ inl c ↦ rw (e, c) refl | inr c ↦ rw (e, c) h ]

missed_by :
    (p previous s : ℕ) (t : LossTracker)
    → last_of p t.last ≡ some previous
    → previous < s
    → s < 2 ^ 64
    → previous + suc (observe p s t).0 ≡ s
unfolding observe
missed_by p previous s t h low up = rw (h) (ground arith)

-- One observation's step of the sum: it counts for the publisher, or for another.
add_step :
    (b : Bool) (previous seq n rest count last : ℕ)
    → (b ≡ true → previous + suc n ≡ seq)
    → (if b then seq else previous) + rest + count ≡ last
    → previous + (if b then n + rest else rest) + (if b then suc count else count) ≡ last
add_step true previous seq n rest count last gap h = let g = gap refl in omega arith
add_step false previous seq n rest count last gap h = h

-- For a publisher whose observed numbers rise and stay below 2^64, the reported losses are exactly
-- the numbers between its first and its last observation that were not observed, whatever other
-- publishers send in between. Numbers that come out of their order, or a counter that starts again,
-- are not covered.
pub losses-exact :
    (p previous : ℕ) (t : LossTracker) (os : List (ℕ × ℕ))
    → last_of p t.last ≡ some previous
    → IsRising p previous os
    → previous + losses p t os + count_of p os ≡ final p previous os
unfolding losses
losses-exact p previous t [] h r = omega arith
losses-exact p previous t ((q, seq) ∷ os) h (rises, rest) =
    let t' = (observe q seq t).1 in
    let now : ℕ = if q == p then seq else previous in
    let after = losses-exact p now t' os (after_observe p previous q seq t h) rest in
    let up = IsRising-lt p now os rest in
    let gap : q == p ≡ true → previous + suc (observe q seq t).0 ≡ seq = λ e.
      let same = (==_iff q p).0 e in
      let high : seq < 2 ^ 64 = ground arith in
      missed_by q previous seq t (rw (same) h) (rises same) high in
    add_step (q == p) previous seq (observe q seq t).0 (losses p t' os) (count_of p os)
      (final p now os) gap after
