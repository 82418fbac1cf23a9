-- ===== src/Tests/Monitor.antt =====
-- Runs of the observer: losses, and the table of the calls in flight.
use native.Mathlib.Decide.{ℕ_discrete}
use ice_rpc.Common.{ℕ, ◌+◌, ◌≡◌, refl, arith, Bool, false, none, List, [], ◌∷◌, All}
use ice_rpc.Common.Text.{codes}
use ice_rpc.Monitor.Loss.{LossTracker, last_of}
use ice_rpc.Monitor.Loss.Total.{losses, count_of, final, losses-exact}
use ice_rpc.Monitor.Correlate.{PendingCall, Correlate, insert, on_response, sweep}
use ice_rpc.Monitor.Correlate.Distinct.{IsOldest}
use ice_rpc.Monitor.Correlate.Bounded.{IsValid, operations-IsValid}

abbrev tracker : LossTracker
tracker = record { last = (7, 10) ∷ [] }

abbrev seen : List (ℕ × ℕ)
seen = (7, 12) ∷ (8, 90) ∷ (7, 13) ∷ (8, 3) ∷ (7, 20) ∷ []

losses-exact_example : 10 + losses 7 tracker seen + count_of 7 seen ≡ final 7 10 seen
unfolding last_of
losses-exact_example = losses-exact 7 10 tracker seen refl (ground arith)

abbrev call_at : ℕ → PendingCall
call_at now = record {
  channel = codes "db";
  service_id = 77;
  method = codes "get";
  request_ts_ns = now;
  request_bytes = 4;
  request_text = none;
  first_response_seen = false;
  started = now;
}

abbrev full : Correlate ℕ
full = record { entries = (1, call_at 300) ∷ (2, call_at 100) ∷ []; max = 2; ttl = 50 }

abbrev AreOldest : List PendingCall → Type 0
AreOldest evicted = All (λ old. IsOldest old.started full.entries) evicted

full-IsValid : IsValid ℕ_discrete full
unfolding IsValid ℕ_discrete
full-IsValid = ((refl, (refl, tt)), omega arith)

operations-IsValid_example :
    ((cid : ℕ) (call : PendingCall) → IsValid ℕ_discrete (insert ℕ_discrete cid call full).1)
    × ((cid : ℕ) (terminal : Bool)
        → IsValid ℕ_discrete (on_response ℕ_discrete cid terminal full).1)
    × ((now : ℕ) → IsValid ℕ_discrete (sweep now full).1)
operations-IsValid_example = operations-IsValid ℕ_discrete full (omega arith) full-IsValid
