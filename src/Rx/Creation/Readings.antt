-- ===== src/Rx/Creation/Readings.antt =====
-- creation.rs: what a consumer reads of the streams made there.
use ice_rpc.Common.{
  ◌≡◌, refl, ap, ◌∙◌, ℕ, zero, suc, none, some, List, [], ◌∷◌, ◌++◌, take, replicate,
}
use ice_rpc.Common.Result.{Result, ok, err}
use ice_rpc.Rx.Event.{ObservableError, business}
use ice_rpc.Rx.Stream.{pending, ready, Script, collect}
use ice_rpc.Rx.Polls.{
  completed, polls_or_panic, reading, cons_value, collect_values-reading, collected,
}
use ice_rpc.Rx.Creation.{from, defer, poll_deferred}

module _ {ℓ κ} {T : Type ℓ} {E : Type κ} where
  pub from-reading :
      (values : List T)
      → reading (from {E = E} values).script ≡ record { values = values; ending = completed }
  unfolding from reading
  from-reading [] = refl
  from-reading (v ∷ values) = ap (cons_value v) (from-reading values)

  streaming :
      (n : ℕ) (s : Script T E)
      → polls_or_panic n poll_deferred
          (record { factory = none; pending_future = none; stream = some s })
        ≡ some (take n s)
  unfolding polls_or_panic poll_deferred
  streaming zero s = refl
  streaming (suc n) [] = rw (streaming n [])
  streaming (suc n) (pending ∷ s) = rw (streaming n s)
  streaming (suc n) (ready e ∷ s) = rw (streaming n s)

  awaiting :
      (n waits : ℕ) (s : Script T E)
      → polls_or_panic n poll_deferred (record {
        factory = none;
        pending_future = some (record { waits = waits; output = s });
        stream = none;
      })
        ≡ some (take n (replicate waits pending ++ s))
  unfolding polls_or_panic poll_deferred
  awaiting zero waits s = refl
  awaiting (suc n) zero [] = rw (streaming n [])
  awaiting (suc n) zero (pending ∷ s) = rw (streaming n s)
  awaiting (suc n) zero (ready e ∷ s) = rw (streaming n s)
  awaiting (suc n) (suc waits) s = rw (awaiting n waits s)

  -- A deferred stream, polled any number of times, never asks for its factory again, which would
  -- panic: it is pending while the factory's future is, and then gives the answers of the stream
  -- that the future resolved to.
  pub defer-take :
      (n waits : ℕ) (s : Script T E)
      → polls_or_panic n poll_deferred (defer (record { waits = waits; output = s }))
        ≡ some (take n (replicate waits pending ++ s))
  unfolding polls_or_panic poll_deferred defer
  defer-take zero waits s = refl
  defer-take (suc n) zero [] = rw (streaming n [])
  defer-take (suc n) zero (pending ∷ s) = rw (streaming n s)
  defer-take (suc n) zero (ready e ∷ s) = rw (streaming n s)
  defer-take (suc n) (suc waits) s = rw (awaiting n waits s)

  -- `collect` of `from` returns the values, and of `from_future` it returns what the future
  -- resolved to, a value alone or the error as a business error, once the future is polled often
  -- enough.
  abbrev pub settled : Result T E → Result (List T) (ObservableError E)
  settled (ok value) = ok (value ∷ [])
  settled (err e) = err (business e)

  pub collect-from : (values : List T) → collect (from {E = E} values) ≡ ok values
  unfolding collect
  collect-from values =
      collect_values-reading (from values).script ∙ ap collected (from-reading values)
