-- ===== src/Rx/Utility/Readings.antt =====
-- utility.rs: what a consumer reads behind each operator, and what the callbacks see.
use ice_rpc.Common.{
  ◌≡◌, refl, ap, sym, ◌∙◌, ℕ, zero, suc, ◌+◌, leb, Bool, true, false, List, [], ◌∷◌, ◌++◌,
  append-nil, append_assoc, take, if◌then◌else◌,
}
use ice_rpc.Rx.Event.{Event, technical, timeout}
use ice_rpc.Rx.Stream.{Poll, pending, ready, Script}
use ice_rpc.Rx.Polls.{Reading, closed, completed, failed, polls, cons_value}
use ice_rpc.Rx.Utility.{tap, poll_tap, finalize, poll_finalize, state_after}

module _ {ℓ κ} {T : Type ℓ} {E : Type κ} where
  -- The values among these answers, terminal events or not.
  abbrev pub values_in : Script T E → List T
  values_in [] = []
  values_in (pending ∷ s) = values_in s
  values_in (ready (Event.next v) ∷ s) = v ∷ values_in s
  values_in (ready Event.complete ∷ s) = values_in s
  values_in (ready (Event.error e) ∷ s) = values_in s

  tap_from :
      (n : ℕ) (seen : List T) (s : Script T E)
      → (polls n poll_tap (record { source = s; seen = seen }) ≡ take n s)
        × ((state_after n poll_tap (record { source = s; seen = seen })).seen
            ≡ seen ++ values_in (take n s))
  unfolding polls poll_tap
  tap_from zero seen s = (refl, sym (append-nil seen))
  tap_from (suc n) seen [] =
      (refl, (tap_from n seen []).1 ∙ ap (λ a. seen ++ values_in a) (take_nil n))
    where
      take_nil : (n : ℕ) → take {A = Poll (Event T E)} n [] ≡ []
      take_nil zero = refl
      take_nil (suc n) = refl
  tap_from (suc n) seen (pending ∷ s) = let (a, b) = tap_from n seen s in (ap (◌∷◌ pending) a, b)
  tap_from (suc n) seen (ready (Event.next v) ∷ s) =
      let (a, b) = tap_from n (seen ++ v ∷ []) s in
      (ap (◌∷◌ (ready (Event.next v))) a, b ∙ append_assoc seen (v ∷ []) (values_in (take n s)))
  tap_from (suc n) seen (ready Event.complete ∷ s) =
      let (a, b) = tap_from n seen s in (ap (◌∷◌ (ready Event.complete)) a, b)
  tap_from (suc n) seen (ready (Event.error e) ∷ s) =
      let (a, b) = tap_from n seen s in (ap (◌∷◌ (ready (Event.error e))) a, b)

  -- Polled any number of times, `tap` gives the source's answers as they are, and its function is
  -- called with each value that it gives, once and in order.
  pub tap-take :
      (n : ℕ) (s : Script T E)
      → (polls n poll_tap (tap s) ≡ take n s)
        × ((state_after n poll_tap (tap s)).seen ≡ values_in (take n s))
  unfolding tap
  tap-take n s = tap_from n [] s

  -- These answers hold a terminal event, or the stream is closed behind them.
  abbrev pub ends_within : ℕ → Script T E → Bool
  ends_within zero s = false
  ends_within (suc n) [] = true
  ends_within (suc n) (pending ∷ s) = ends_within n s
  ends_within (suc n) (ready (Event.next v) ∷ s) = ends_within n s
  ends_within (suc n) (ready Event.complete ∷ s) = true
  ends_within (suc n) (ready (Event.error e) ∷ s) = true

  finalized :
      (n runs : ℕ) (s : Script T E)
      → (state_after n poll_finalize (record { source = s; armed = false; runs = runs })).runs
        ≡ runs
  unfolding poll_finalize
  finalized zero runs s = refl
  finalized (suc n) runs [] = finalized n runs []
  finalized (suc n) runs (pending ∷ s) = finalized n runs s
  finalized (suc n) runs (ready (Event.next v) ∷ s) = finalized n runs s
  finalized (suc n) runs (ready Event.complete ∷ s) = finalized n runs s
  finalized (suc n) runs (ready (Event.error e) ∷ s) = finalized n runs s

  finalize-take :
      (n : ℕ) (s : Script T E) (armed : Bool) (runs : ℕ)
      → polls n poll_finalize (record { source = s; armed = armed; runs = runs }) ≡ take n s
  unfolding polls poll_finalize
  finalize-take zero s armed runs = refl
  finalize-take (suc n) [] armed runs = refl
  finalize-take (suc n) (pending ∷ s) armed runs = ap (◌∷◌ pending) (finalize-take n s armed runs)
  finalize-take (suc n) (ready (Event.next v) ∷ s) armed runs =
      ap (◌∷◌ (ready (Event.next v))) (finalize-take n s armed runs)
  finalize-take (suc n) (ready Event.complete ∷ s) armed runs =
      ap (◌∷◌ (ready Event.complete)) (finalize-take n s false _)
  finalize-take (suc n) (ready (Event.error e) ∷ s) armed runs =
      ap (◌∷◌ (ready (Event.error e))) (finalize-take n s false _)

  -- The function of `finalize` runs at the first terminal event or at the end of the source,
  -- whichever comes first, and never again, however often the stream is polled.
  pub finalize-ends_within :
      (n : ℕ) (s : Script T E)
      → (state_after n poll_finalize (finalize s)).runs ≡ (if ends_within n s then 1 else 0)
  unfolding finalize poll_finalize
  finalize-ends_within zero s = refl
  finalize-ends_within (suc n) [] = finalized n 1 []
  finalize-ends_within (suc n) (pending ∷ s) = finalize-ends_within n s
  finalize-ends_within (suc n) (ready (Event.next v) ∷ s) = finalize-ends_within n s
  finalize-ends_within (suc n) (ready Event.complete ∷ s) = finalized n 1 s
  finalize-ends_within (suc n) (ready (Event.error e) ∷ s) = finalized n 1 s

  -- What a consumer reads of a source that it polls at these instants, where `since` is the
  -- instant of the last event: a source found pending `duration` later or more has timed out.
  abbrev pub watched : ℕ → ℕ → List ℕ → Script T E → Reading T E
  watched duration since [] s = record { values = []; ending = closed }
  watched duration since (now ∷ instants) [] = record { values = []; ending = closed }
  watched duration since (now ∷ instants) (pending ∷ s) =
      let rest = watched duration since instants s in
      if leb (since + duration) now
      then record { values = []; ending = failed (technical timeout) }
      else rest
  watched duration since (now ∷ instants) (ready (Event.next v) ∷ s) =
      cons_value v (watched duration now instants s)
  watched duration since (now ∷ instants) (ready Event.complete ∷ s) = record {
    values = [];
    ending = completed;
  }
  watched duration since (now ∷ instants) (ready (Event.error e) ∷ s) = record {
    values = [];
    ending = failed e;
  }

  -- Polled any number of times, `tap` and `finalize` give the source's answers as they are. The
  -- function of `tap` has been called with each value given, once and in order; that of `finalize`
  -- has run once if a terminal event was given or the source found closed, and else not at all.
  pub tap-finalize-take :
      (n : ℕ) (s : Script T E)
      → (polls n poll_tap (tap s) ≡ take n s)
        × ((state_after n poll_tap (tap s)).seen ≡ values_in (take n s))
        × (polls n poll_finalize (finalize s) ≡ take n s)
        × ((state_after n poll_finalize (finalize s)).runs ≡ (if ends_within n s then 1 else 0))
  unfolding finalize
  tap-finalize-take n s =
      ((tap-take n s).0, (tap-take n s).1, finalize-take n s true 0, finalize-ends_within n s)
