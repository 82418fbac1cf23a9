-- ===== src/Rx/Combining/Merged.antt =====
-- combining.rs: what a consumer reads behind `merge`.
use ice_rpc.Common.{ℕ, suc, ◌+◌, ◌<◌, Bool, true, false, [], length}
use ice_rpc.Rx.Event.{Event, ObservableError}
use ice_rpc.Rx.Stream.{Script}
use ice_rpc.Rx.Polls.{
  Reading, Ending, closed, completed, failed, Answer, polls, polls_after, reading, cons_value,
}
use ice_rpc.Rx.Combining
use ice_rpc.Rx.Combining.{Merge, poll_merge, new_merge}

module _ {κ} {E : Type κ} where
  -- A source that closes without a terminal event is read as a clean end.
  abbrev pub clean_end : Ending E → Ending E
  clean_end closed = completed
  clean_end completed = completed
  clean_end (failed e) = failed e

module _ {ℓ κ} {T : Type ℓ} {E : Type κ} where
  -- What a consumer may read behind two sources: the values of each in their order, taken from
  -- either side at any time; one completion when both are over; an error of either at once.
  pub data Merged : Reading T E → Reading T E → Reading T E → Type (ℓ ⊔ κ) where
    from_left :
        (v : T) (l r z : Reading T E) → Merged l r z → Merged (cons_value v l) r (cons_value v z)
    from_right :
        (v : T) (l r z : Reading T E) → Merged l r z → Merged l (cons_value v r) (cons_value v z)
    left_fails :
        (e : ObservableError E) (r : Reading T E)
        → Merged
            (record { values = []; ending = failed e })
            r
            (record { values = []; ending = failed e })
    right_fails :
        (e : ObservableError E) (l : Reading T E)
        → Merged l
            (record { values = []; ending = failed e })
            (record { values = []; ending = failed e })
    both_over :
        Merged
          (record { values = []; ending = completed })
          (record { values = []; ending = completed })
          (record { values = []; ending = completed })

  abbrev pub cleaned : Reading T E → Reading T E
  cleaned r = record { values = r.values; ending = clean_end r.ending }

  -- What one source has left to give, and a bound on the polls that takes, before its visit in a
  -- pass and after it.
  abbrev side : Bool → Script T E → Reading T E
  side true s = record { values = []; ending = completed }
  side false s = cleaned (reading s)

  abbrev left_to_poll : Bool → Script T E → ℕ
  left_to_poll true s = 0
  left_to_poll false s = suc (length s)

  abbrev left_after_visit : Bool → Script T E → ℕ
  left_after_visit true s = 0
  left_after_visit false s = length s

  abbrev merging : Script T E → Script T E → Bool → Bool → Bool → Merge T E
  merging l r ld rd first = record {
    left = l;
    right = r;
    left_done = ld;
    right_done = rd;
    completed = false;
    left_first = first;
  }

module _ {ℓ κ} (T : Type ℓ) (E : Type κ) where
  -- The claim for `n` polls.
  abbrev MergesIn : ℕ → Type (ℓ ⊔ κ)
  MergesIn n =
      (l r : Script T E) (ld rd first : Bool)
      → left_to_poll ld l + left_to_poll rd r < n
      → Merged (side ld l) (side rd r) (reading (polls n poll_merge (merging l r ld rd first)))

module _ {ℓ κ} {T : Type ℓ} {E : Type κ} where
  abbrev read_on : ℕ → Answer T E × Merge T E → Reading T E
  read_on n (answer, m) = reading (polls_after answer (polls n poll_merge m))
