-- ===== src/Transport/Notify.antt =====
-- ice-rpc/src/transport/notify.rs: coalesced wake-ups. The monotonic clock is read once for each
-- question; an answer comes with the state that the next question finds.
use ice_rpc.Common.{
  ℕ, ◌+◌, ◌-◌, ◌≤◌, ◌<◌, ◌≡◌, refl, arith, Bool, true, false, not, ◌&&◌, Option, none, some, List,
  [], ◌∷◌, ◌==◌, ltb, if◌then◌else◌,
}

-- NOTIFY_COALESCE_WINDOW in microseconds.
abbrev pub window : ℕ
window = 100

-- The coalescer's value; 0 means that it has never notified.
abbrev pub never : ℕ
never = 0

unfoldable pub should_notify : ℕ → ℕ → Bool × ℕ
should_notify clock_us previous =
    let now = clock_us + 1 in
    if not (previous == never) && ltb (now - previous) window
    then (false, previous)
    else (true, now)

-- The questions at some instants, with their answers.
pub answers : List ℕ → ℕ → List (ℕ × Bool)
answers [] previous = []
answers (clock ∷ clocks) previous =
    let (notify, next) = should_notify clock previous in (clock, notify) ∷ answers clocks next

-- Behind the last wake-up at `p`, the next one is at least a window later, and every question that is
-- answered by `no` stands less than a window behind it.
abbrev pub Paced : Option ℕ → List (ℕ × Bool) → Type 0
Paced last [] = Unit
Paced none ((clock, notify) ∷ rest) = (notify ≡ true) × Paced (some clock) rest
Paced (some p) ((clock, true) ∷ rest) = (p + window ≤ clock) × Paced (some clock) rest
Paced (some p) ((clock, false) ∷ rest) = (clock < p + window) × Paced (some p) rest

Paced-since : (clocks : List ℕ) (p : ℕ) → Paced (some p) (answers clocks (p + 1))
unfolding answers should_notify
Paced-since [] p = tt
Paced-since (clock ∷ clocks) p = ground (arith, Paced-since clocks p, Paced-since clocks clock)

-- The first question is answered by a wake-up; from then on, whatever the clock shows, two wake-ups
-- are at least a window apart, and no question goes unanswered for a window behind the last one.
pub answers-Paced : (clocks : List ℕ) → Paced none (answers clocks never)
unfolding answers should_notify
answers-Paced [] = tt
answers-Paced (clock ∷ clocks) = (refl, Paced-since clocks clock)
