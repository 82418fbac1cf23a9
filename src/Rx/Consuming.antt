-- ===== src/Rx/Consuming.antt =====
-- ice-rpc-rx/src/transform/terminals.rs and subscribe.rs: the ways to consume a stream. What the
-- callbacks are given is returned as a list.
pub mod Outcomes
use ice_rpc.Common.{ℕ, zero, suc, Bool, true, false, Option, none, some, List, [], ◌∷◌, ◌++◌}
use ice_rpc.Common.Result.{Result, ok, err}
use ice_rpc.Rx.Event.{Event, ObservableError}
use ice_rpc.Rx.Stream.{Poll, pending, ready, Script, Observable, next}

module _ {ℓ κ} (T : Type ℓ) (E : Type κ) where
  -- The calls of an observer.
  pub data Callback : Type (ℓ ⊔ κ) where
    on_next : T → Callback
    on_error : ObservableError E → Callback
    on_complete : Callback

module _ {ℓ κ} {T : Type ℓ} {E : Type κ} where
  -- The loop of `for_each` on fuel: the values that `f` was called with and the result, or `none`
  -- if the fuel ran out.
  pub for_each_step :
      (Observable T E → List T → Option (List T × Result (Unit {0}) (ObservableError E)))
      → List T
      → Option (Result T (ObservableError E))
      → Observable T E
      → Option (List T × Result (Unit {0}) (ObservableError E))
  for_each_step loop seen none o = some (seen, ok tt)
  for_each_step loop seen (some (ok value)) o = loop o (seen ++ value ∷ [])
  for_each_step loop seen (some (err e)) o = some (seen, err e)

  pub for_each_loop :
      ℕ → Observable T E → List T → Option (List T × Result (Unit {0}) (ObservableError E))
  unfolding for_each_step next
  for_each_loop zero o seen = none
  for_each_loop (suc n) o seen =
      let (item, o') = next o in for_each_step (for_each_loop n) seen item o'

  unfoldable pub for_each :
      ℕ → Observable T E → Option (List T × Result (Unit {0}) (ObservableError E))
  unfolding for_each_loop
  for_each n o = for_each_loop n o []

  -- `run_push`: at each poll of the race either the token's future wins, which is `true` here, or
  -- the stream is polled.
  unfoldable pub run_push : List Bool → Script T E → List (Callback T E)
  run_push [] s = []
  run_push (true ∷ turns) s = []
  run_push (false ∷ turns) [] = Callback.on_complete ∷ []
  run_push (false ∷ turns) (pending ∷ s) = run_push turns s
  run_push (false ∷ turns) (ready (Event.next v) ∷ s) = Callback.on_next v ∷ run_push turns s
  run_push (false ∷ turns) (ready Event.complete ∷ s) = Callback.on_complete ∷ []
  run_push (false ∷ turns) (ready (Event.error e) ∷ s) = Callback.on_error e ∷ []

  -- The calls that reach the callback of `subscribe`.
  unfoldable pub next_only : List (Callback T E) → List T
  next_only [] = []
  next_only (Callback.on_next v ∷ calls) = v ∷ next_only calls
  next_only (Callback.on_error e ∷ calls) = next_only calls
  next_only (Callback.on_complete ∷ calls) = next_only calls

  unfoldable pub subscribe_all : List Bool → Observable T E → List (Callback T E)
  unfolding run_push
  subscribe_all turns o = run_push turns o.script

  unfoldable pub subscribe : List Bool → Observable T E → List T
  unfolding subscribe_all next_only
  subscribe turns o = next_only (subscribe_all turns o)
