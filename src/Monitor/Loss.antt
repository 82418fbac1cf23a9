-- ===== src/Monitor/Loss.antt =====
-- ice-rpc-monitor/src/loss.rs: how many samples the observer missed, by sequence numbers.
pub mod Total
use ice_rpc.Common.{ℕ, ◌+◌, ◌-◌, ◌^◌, Option, none, some, List, [], ◌∷◌, ltb, ◌==◌, if◌then◌else◌}

-- Last observed sequence of every publisher port.
pub record LossTracker : Type 0 where
  pub last : List (ℕ × ℕ)

unfoldable pub last_of : ℕ → List (ℕ × ℕ) → Option ℕ
last_of publisher [] = none
last_of publisher ((p, s) ∷ last) = if p == publisher then some s else last_of publisher last

unfoldable pub put : ℕ → ℕ → List (ℕ × ℕ) → List (ℕ × ℕ)
put publisher seq [] = (publisher, seq) ∷ []
put publisher seq ((p, s) ∷ last) =
    if p == publisher then (p, seq) ∷ last else (p, s) ∷ put publisher seq last

-- `saturating_add(1)` on 64 bits.
abbrev pub saturating_suc : ℕ → ℕ
saturating_suc n = if ltb n (2 ^ 64 - 1) then n + 1 else 2 ^ 64 - 1

abbrev pub missed : Option ℕ → ℕ → ℕ
missed none seq = 0
missed (some previous) seq = if ltb (saturating_suc previous) seq then seq - previous - 1 else 0

unfoldable pub observe : ℕ → ℕ → LossTracker → ℕ × LossTracker
unfolding last_of put
observe publisher seq t =
    (missed (last_of publisher t.last) seq, record { last = put publisher seq t.last })
