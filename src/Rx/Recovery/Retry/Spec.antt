-- ===== src/Rx/Recovery/Retry/Spec.antt =====
-- error_handling.rs: what the attempts of `retry_with` come to, one after the other.
use mathlib.Core.Option
use ice_rpc.Common.{
  ◌≡◌, refl, ap, ◌∙◌, ℕ, zero, suc, ◌+◌, Bool, true, not, Option, some, List, [], ◌∷◌, length,
  if◌then◌else◌, Bool-cases, inl, inr, arith,
}
use ice_rpc.Rx.Event.{Event, ObservableError}
use ice_rpc.Rx.Stream.{pending, ready, Script}
use ice_rpc.Rx.Polls.{
  Reading, Ending, closed, completed, failed, reading, cons_value, continued, polls_after,
}
use ice_rpc.Rx.Recovery.Retry.{Environment, is_transient}

module _ {κ} {E : Type κ} where
  -- An error of an attempt that may have a successor.
  abbrev pub is_worth_it : Bool → ObservableError E → Bool
  is_worth_it only e = if not only then true else is_transient e

module _ {ℓ κ} {T : Type ℓ} {E : Type κ} where
  -- An attempt and, if it fails by an error that is worth it, what comes behind it.
  abbrev pub and_again : Bool → List T → Ending E → Reading T E → Reading T E
  and_again only vs closed more = record { values = vs; ending = closed }
  and_again only vs completed more = record { values = vs; ending = completed }
  and_again only vs (failed e) more =
      if is_worth_it only e then continued vs more else record { values = vs; ending = failed e }

  -- The specification: what attempt `i` gives, with `more` attempts allowed behind it.
  abbrev pub retried : Bool → Environment T E → (more i : ℕ) → Reading T E
  retried only env zero i = reading (env.factory i).output
  retried only env (suc more) i =
      let r : Reading T E = reading (env.factory i).output in
      and_again only r.values r.ending (retried only env more (suc i))

  -- How many answers these attempts come to.
  abbrev pub answers : Environment T E → (more i : ℕ) → ℕ
  answers env zero i = (env.factory i).waits + length (env.factory i).output
  answers env (suc more) i =
      (env.factory i).waits
      + length (env.factory i).output
      + (env.pause (suc i) + answers env more (suc i))

  -- The same from within attempt `i`, of which `r` is still to be read.
  abbrev pub finished_by : Bool → Environment T E → (more i : ℕ) → Reading T E → Reading T E
  finished_by only env zero i r = r
  finished_by only env (suc more) i r =
      and_again only r.values r.ending (retried only env more (suc i))

  abbrev pub later : Environment T E → (more i : ℕ) → ℕ
  later env zero i = 0
  later env (suc more) i = env.pause (suc i) + answers env more (suc i)

  pub retried-finished_by :
      (only : Bool) (env : Environment T E) (more i : ℕ)
      → finished_by only env more i (reading (env.factory i).output) ≡ retried only env more i
  retried-finished_by only env zero i = refl
  retried-finished_by only env (suc more) i = refl

  pub answers-later :
      (env : Environment T E) (more i : ℕ)
      → answers env more i
        ≡ (env.factory i).waits + length (env.factory i).output + later env more i
  answers-later env zero i = omega arith
  answers-later env (suc more) i = refl

  and_again-cons :
      (only : Bool) (v : T) (vs : List T) (end : Ending E) (r : Reading T E)
      → cons_value v (and_again only vs end r) ≡ and_again only (v ∷ vs) end r
  and_again-cons only v vs closed r = refl
  and_again-cons only v vs completed r = refl
  and_again-cons only v vs (failed e) r = elim (Bool-cases (is_worth_it only e)) [
    | inl h ↦ rw h
    | inr h ↦ rw h
  ]

  pub finished_by-cons :
      (only : Bool) (env : Environment T E) (more i : ℕ) (v : T) (r : Reading T E)
      → cons_value v (finished_by only env more i r) ≡ finished_by only env more i (cons_value v r)
  finished_by-cons only env zero i v r = refl
  finished_by-cons only env (suc more) i v r =
      and_again-cons only v r.values r.ending (retried only env more (suc i))

  pub finished_by-closed :
      (only : Bool) (env : Environment T E) (more i : ℕ)
      → record { values = []; ending = closed }
        ≡ finished_by only env more i (record { values = []; ending = closed })
  finished_by-closed only env zero i = refl
  finished_by-closed only env (suc more) i = refl

  pub finished_by-completed :
      (only : Bool) (env : Environment T E) (more i : ℕ)
      → record { values = []; ending = completed }
        ≡ finished_by only env more i (record { values = []; ending = completed })
  finished_by-completed only env zero i = refl
  finished_by-completed only env (suc more) i = refl

  -- A consumer gets to the end of a script, and this is what it reads.
  abbrev pub Gives : Option (Script T E) → Reading T E → Type (ℓ ⊔ κ)
  Gives o r = (s : Script T E) × (o ≡ some s) × (reading s ≡ r)

  pub Gives-pending :
      (o : Option (Script T E)) (r : Reading T E)
      → Gives o r
      → Gives (Option.map (polls_after pending) o) r
  unfolding polls_after reading
  Gives-pending o r (s, e, h) = (pending ∷ s, rw e, h)

  pub Gives-next :
      (v : T) (o : Option (Script T E)) (r r' : Reading T E)
      → cons_value v r ≡ r'
      → Gives o r
      → Gives (Option.map (polls_after (ready (some (Event.next v)))) o) r'
  unfolding polls_after reading
  Gives-next v o r r' c (s, e, h) = (ready (Event.next v) ∷ s, rw e, ap (cons_value v) h ∙ c)
