-- ===== src/Tests/Operators.antt =====
-- Runs of the operators and of the consumers.
use ice_rpc.Common.{
  ℕ, ◌==◌, ==_iff, ltb, ◌≡◌, refl, Bool, true, false, none, List, [], ◌∷◌, ◌++◌, filter, drop,
  replicate, if◌then◌else◌, arith,
}
use ice_rpc.Rx.Event.{Event, business}
use ice_rpc.Rx.Stream.{pending, ready, Script, Observable}
use ice_rpc.Rx.Polls.{completed, failed, reading, with_values}
use ice_rpc.Rx.Filtering
use ice_rpc.Rx.Filtering.Readings.{taken, first_match, changes, filtering-reading}
use ice_rpc.Rx.Transforming.SwitchMap.{switch_map, flattened, switch_map-flattened}
use ice_rpc.Rx.Combining.{merge}
use ice_rpc.Rx.Combining.Merged.{Merged}
use ice_rpc.Rx.Recovery.{catch_error}
use ice_rpc.Rx.Recovery.Caught.{catch_error-reading}
use ice_rpc.Rx.Recovery.Retry.{RetryPolicy, Environment, retry_with}
use ice_rpc.Rx.Recovery.Retry.Spec.{Gives, retried}
use ice_rpc.Rx.Recovery.Retry.Attempts.{retry_with-retried}
use ice_rpc.Rx.Utility.Delay.{delay, events}
use ice_rpc.Rx.Utility.Delay.Drained.{delay-events}
use ice_rpc.Rx.Consuming.{Callback, subscribe_all}
use ice_rpc.Rx.Consuming.Outcomes.{subscribe_all-told, told}

-- 1, 1, 2, 3 and a completion, with a wait after the first.
abbrev source : Script ℕ ℕ
source =
    ready (Event.next 1)
    ∷ pending
    ∷ ready (Event.next 1)
    ∷ ready (Event.next 2)
    ∷ ready (Event.next 3)
    ∷ ready Event.complete
    ∷ []

-- 7, and then a business error.
abbrev failing : Script ℕ ℕ
failing = ready (Event.next 7) ∷ ready (Event.error (business 5)) ∷ []

abbrev is_small : ℕ → Bool
is_small v = ltb v 3

abbrev same : ℕ → ℕ → Bool
same u v = u == v

filtering-reading_example :
    (reading (Filtering.filter 7 is_small source) ≡ with_values (filter is_small) (reading source))
    × (reading (Filtering.skip 7 2 source) ≡ with_values (drop 2) (reading source))
    × (reading (Filtering.distinct_until_changed 7 same source)
        ≡ with_values (changes same none) (reading source))
    × (reading (Filtering.take 7 2 source) ≡ taken 2 (reading source))
    × (reading (Filtering.first_with 7 is_small source)
        ≡ first_match is_small (reading source).values (reading source).ending)
filtering-reading_example =
    filtering-reading 7 2 is_small same (λ u v h. (==_iff u v).0 h) source (omega arith)

-- The same polls, run: the second value repeats the first.
distinct_runs :
    reading (Filtering.distinct_until_changed 7 same source)
    ≡ record { values = 1 ∷ 2 ∷ 3 ∷ []; ending = completed }
unfolding reading Filtering.distinct_until_changed
distinct_runs = refl

take_runs : reading (Filtering.take 7 2 source) ≡ record { values = 1 ∷ 1 ∷ []; ending = completed }
unfolding reading Filtering.take
take_runs = refl

-- Both sides get their turn, and the error ends the stream.
merge_runs :
    reading (merge 11 source failing) ≡ record { values = 1 ∷ 7 ∷ []; ending = failed (business 5) }
unfolding reading merge
merge_runs = refl

abbrev stop : Script ℕ ℕ
stop = []

abbrev fallback : ℕ → Script ℕ ℕ
fallback e = ready (Event.next e) ∷ ready Event.complete ∷ []

catch_error-reading_example :
    reading (catch_error 5 fallback failing) ≡ record { values = 7 ∷ 5 ∷ []; ending = completed }
unfolding reading
catch_error-reading_example =
    catch_error-reading 5 2 fallback (λ e. omega arith) failing (omega arith)

abbrev twice : RetryPolicy
twice = record { attempts = 2; delay = 1; only_retryable = false }

-- The first attempt fails, the second does not; the pause is pending once.
abbrev attempt : ℕ → Script ℕ ℕ
attempt i = if i == 0 then failing else source

abbrev env : Environment ℕ ℕ
env = record { factory = λ i. record { waits = 1; output = attempt i }; pause = λ i. 1 }

retry_with-retried_example : Gives (retry_with 20 twice env) (retried false env 1 0)
retry_with-retried_example = retry_with-retried twice env 20 (omega arith)

abbrev stream : Observable ℕ ℕ
stream = record { script = failing; terminated = false }

subscribe_all-told_example :
    (subscribe_all (replicate 3 false) stream ≡ told (reading failing))
    × ((rest : List (Callback ℕ ℕ)) × (subscribe_all (false ∷ true ∷ []) stream ++ rest
          ≡ told (reading failing)))
subscribe_all-told_example = subscribe_all-told 3 (false ∷ true ∷ []) stream (omega arith)

-- A value of the source, twice.
abbrev each_twice : ℕ → Script ℕ ℕ
each_twice v = ready (Event.next v) ∷ ready (Event.next v) ∷ ready Event.complete ∷ []

switch_map-flattened_example :
    reading (switch_map 14 each_twice source)
    ≡ flattened each_twice (reading source).values (reading source).ending
switch_map-flattened_example = switch_map-flattened 14 each_twice (λ v. tt) source (omega arith)

-- Twelve polls that are ten apart.
abbrev every_ten : List ℕ
every_ten = 0 ∷ 10 ∷ 20 ∷ 30 ∷ 40 ∷ 50 ∷ 60 ∷ 70 ∷ 80 ∷ 90 ∷ 100 ∷ 110 ∷ []

delay-events_example : events (delay every_ten 10 source) ≡ events source
delay-events_example = delay-events 10 every_ten source (ground arith) (omega arith)
