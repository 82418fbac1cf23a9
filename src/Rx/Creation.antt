-- ===== src/Rx/Creation.antt =====
-- ice-rpc-rx/src/creation.rs and `from_events` of stream.rs: streams made from values, and streams
-- made by a future at the first poll.
pub mod Readings
use ice_rpc.Common.{
  ℕ, zero, suc, ◌+◌, Bool, true, false, Option, none, some, List, [], ◌∷◌, ◌++◌, map,
}
use ice_rpc.Common.Result.{Result, ok, err}
use ice_rpc.Rx.Event.{Event, RpcError, business, technical}
use ice_rpc.Rx.Stream.{Poll, pending, ready, Script, Observable}
use ice_rpc.Rx.Polls.{Answer, polls, poll_source}

module _ {ℓ κ} {T : Type ℓ} {E : Type κ} where
  -- The inline queue gives its events without ever being pending.
  unfoldable pub from_events : List (Event T E) → Observable T E
  from_events events = record { script = map ready events; terminated = false }

  unfoldable pub from_technical_error : RpcError → Observable T E
  unfolding from_events
  from_technical_error e = from_events (Event.error (technical e) ∷ [])

  unfoldable pub from : List T → Observable T E
  unfolding from_events
  from values = from_events (map Event.next values ++ Event.complete ∷ [])

  unfoldable pub of : T → Observable T E
  unfolding from_events
  of value = from_events (Event.next value ∷ Event.complete ∷ [])

  unfoldable pub throw_error : E → Observable T E
  unfolding from_events
  throw_error e = from_events (Event.error (business e) ∷ [])

-- A future: how often it is pending, and what it then resolves to.
pub record Future {ℓ} (A : Type ℓ) : Type ℓ where
  pub waits : ℕ
  pub output : A

module _ {ℓ κ} (T : Type ℓ) (E : Type κ) where
  pub record Deferred : Type (ℓ ⊔ κ) where
    pub factory : Option (Future (Script T E))
    pub pending_future : Option (Future (Script T E))
    pub stream : Option (Script T E)

module _ {ℓ κ} {T : Type ℓ} {E : Type κ} where
  pub hand_over : Answer T E × Script T E → Answer T E × Deferred T E
  hand_over (answer, s) =
      (answer, record { factory = none; pending_future = none; stream = some s })

  -- `waits` and `output` are those of the future in `pending_future`.
  pub await : ℕ → Script T E → Answer T E × Deferred T E
  unfolding hand_over poll_source
  await zero output = hand_over (poll_source output)
  await (suc waits) output = (
    pending,
    record {
      factory = none;
      pending_future = some (record { waits = waits; output = output });
      stream = none;
    },
  )

  -- `none` is the panic of `expect("the factory runs once")`, with neither factory, future nor
  -- stream.
  pub deferred :
      Option (Future (Script T E))
      → Option (Future (Script T E))
      → Option (Script T E)
      → Option (Answer T E × Deferred T E)
  unfolding await hand_over poll_source
  deferred factory none (some s) = some (hand_over (poll_source s))
  deferred factory (some f) stream = some (await f.waits f.output)
  deferred (some f) none none = some (await f.waits f.output)
  deferred none none none = none

  unfoldable pub poll_deferred : Deferred T E → Option (Answer T E × Deferred T E)
  unfolding deferred
  poll_deferred d = deferred d.factory d.pending_future d.stream

  unfoldable pub defer : Future (Script T E) → Deferred T E
  defer factory = record { factory = some factory; pending_future = none; stream = none }

  pub settle : Result T E → Script T E
  unfolding of throw_error
  settle (ok value) = (of value).script
  settle (err e) = (throw_error e).script

  unfoldable pub from_future : Future (Result T E) → Deferred T E
  unfolding defer settle
  from_future f = defer (record { waits = f.waits; output = settle f.output })
