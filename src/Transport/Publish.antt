-- ===== src/Transport/Publish.antt =====
-- ice-rpc/src/transport/publish.rs: publication with back-off. What each turn of the loop finds,
-- of the runtime and of the bus, is a `Look`; a schedule gives the looks in their order.
pub mod Delivery
use ice_rpc.Common.{ℕ, zero, suc, Bool, true, false, Option, none, some, ◌==◌, ltb, if◌then◌else◌}
use ice_rpc.Common.Text.{codes}
use ice_rpc.Common.Result.{Result, ok, err}
use ice_rpc.Rx.Event.{RpcError, cancelled, transport_error}

pub record Look : Type 0 where
  pub shutdown : Bool  -- `shutdown_requested()`
  pub subscribers : ℕ
  pub late : Bool  -- the deadline has passed
  pub sends : Result Bool RpcError  -- what one `try_publish` answers
  pub terminates : Bool  -- `SignalHandler::termination_requested()`

-- PUBLISH_SPIN_ATTEMPTS.
abbrev pub spin_attempts : ℕ
spin_attempts = 4096

abbrev pub Answer : Type 0
Answer = Result (Unit {0}) RpcError

-- The attempts made so far go up to the bound; `none` is the signal to stop.
abbrev pub backoff : Look → ℕ → Option ℕ
backoff look attempts =
    if ltb attempts spin_attempts
    then some (suc attempts)
    else if look.terminates
    then none
    else some attempts

abbrev pub no_subscriber : RpcError
no_subscriber = transport_error (codes "no subscriber connected (is the provider running?)")

abbrev pub buffer_full : RpcError
buffer_full = transport_error (codes "delivery refused: the subscriber buffer stayed full")

-- The turn after a fruitless attempt.
abbrev pub wait : RpcError → Look → ℕ → (ℕ → Option Answer × ℕ) → Option Answer × ℕ
wait e look attempts again =
    if look.late
    then (some (err e), 0)
    else elim (backoff look attempts) [ none ↦ (some (err cancelled), 0) | some n ↦ again n ]

abbrev pub after_send :
    Result Bool RpcError → Look → ℕ → (ℕ → Option Answer × ℕ) → Option Answer × ℕ
after_send (err e) look attempts again = (some (err e), 0)
after_send (ok true) look attempts again = (some (ok tt), 1)
after_send (ok false) look attempts again = wait buffer_full look attempts again

abbrev pub turn : Look → ℕ → (ℕ → Option Answer × ℕ) → Option Answer × ℕ
turn look attempts again =
    if look.shutdown
    then (some (err cancelled), 0)
    else if look.subscribers == 0
    then wait no_subscriber look attempts again
    else after_send look.sends look attempts again

-- The loop: its answer, `none` when the fuel is out, and how many samples were delivered.
unfoldable pub publish_until_delivered : ℕ → (ℕ → Look) → ℕ → ℕ → Option Answer × ℕ
publish_until_delivered zero looks now attempts = (none, 0)
publish_until_delivered (suc fuel) looks now attempts =
    turn (looks now) attempts (publish_until_delivered fuel looks (suc now))

-- The one attempt of a one-way call.
unfoldable pub publish_one_way : Look → Result Bool RpcError
publish_one_way look = if look.subscribers == 0 then ok false else look.sends
