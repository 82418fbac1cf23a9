-- ===== src/Transport/Open.antt =====
-- ice-rpc/src/transport/open.rs: what a failure to open an iceoryx2 service is reported as, and when
-- opening is tried again. Of iceoryx2's errors only the variants that the source names are told
-- apart; `debug` is its text of an error.
pub mod Retry
pub mod Reported
pub mod Events
use ice_rpc.Common.{
  ℕ, zero, suc, ◌+◌, ◌-◌, ◌==◌, Bool, true, false, not, ◌||◌, Option, none, some, List, [], ◌++◌,
  if◌then◌else◌,
}
use ice_rpc.Common.Text.{codes}
use ice_rpc.Common.Result.{Result, ok, err}
use ice_rpc.Rx.Event.{Text, RpcError, transport_error, protocol_mismatch, is_retryable}

pub data OpenMode : Type 0 where
  create_or_open read_only : OpenMode

-- PublishSubscribeOpenError.
pub data PubSubOpenError : Type 0 where
  does_not_exist incompatible_types incompatible_messaging_pattern : PubSubOpenError
  incompatible_attributes incompatible_overflow_behavior : PubSubOpenError
  min_buffer_size min_history_size min_borrowed_samples : PubSubOpenError
  amount_of_publishers amount_of_subscribers amount_of_nodes : PubSubOpenError
  service_in_corrupted_state hangs_in_creation : PubSubOpenError
  other_open : ℕ → PubSubOpenError

-- PublishSubscribeCreateError.
pub data PubSubCreateError : Type 0 where
  corrupted hangs : PubSubCreateError
  other_create : ℕ → PubSubCreateError

-- PublishSubscribeOpenOrCreateError.
pub data OpenOrCreateError : Type 0 where
  in_open : PubSubOpenError → OpenOrCreateError
  in_create : PubSubCreateError → OpenOrCreateError
  in_flux : OpenOrCreateError

pub remedy_config : Text
remedy_config =
    codes
      "the iceoryx2 configuration resolved by this process differs from the one recorded when the service was created: payload alignment, overflow behavior, buffer sizes or port limits. Every participant of this channel must resolve the same iceoryx2 configuration (notably its `[defaults.publish-subscribe]`) and speak the same protocol version"

pub remedy_stale : Text
remedy_stale =
    codes
      "the iceoryx2 state on this machine was left behind by a process that was killed while it held this service. Once no process still runs, remove the iceoryx2 root path (the `root-path` of the effective `iceoryx2.toml`, or iceoryx2's default: C:\\Temp\\iceoryx2 on Windows, /tmp/iceoryx2 elsewhere)"

unfoldable pub is_config_mismatch : PubSubOpenError → Bool
is_config_mismatch incompatible_types = true
is_config_mismatch incompatible_messaging_pattern = true
is_config_mismatch incompatible_attributes = true
is_config_mismatch incompatible_overflow_behavior = true
is_config_mismatch min_buffer_size = true
is_config_mismatch min_history_size = true
is_config_mismatch min_borrowed_samples = true
is_config_mismatch amount_of_publishers = true
is_config_mismatch amount_of_subscribers = true
is_config_mismatch amount_of_nodes = true
is_config_mismatch _ = false

unfoldable pub is_stale_state : PubSubOpenError → Bool
is_stale_state service_in_corrupted_state = true
is_stale_state hangs_in_creation = true
is_stale_state _ = false

unfoldable pub is_stale_creation : PubSubCreateError → Bool
is_stale_creation corrupted = true
is_stale_creation hangs = true
is_stale_creation (other_create n) = false

-- `transport_error(context, error)`, and a message that ends in a remedy.
abbrev pub plain : Text → Text → RpcError
plain context text = transport_error (context ++ (codes ": " ++ text))

abbrev pub with_remedy : Text → Text → Text → RpcError
with_remedy context text remedy =
    protocol_mismatch (context ++ (codes ": " ++ (text ++ (codes ". " ++ remedy))))

unfoldable pub pub_sub_open_error : (PubSubOpenError → Text) → Text → PubSubOpenError → RpcError
unfolding is_config_mismatch is_stale_state remedy_config remedy_stale
pub_sub_open_error debug context e =
    if is_config_mismatch e
    then with_remedy context (debug e) remedy_config
    else if is_stale_state e
    then with_remedy context (debug e) remedy_stale
    else plain context (debug e)

unfoldable pub pub_sub_create_error :
    (PubSubCreateError → Text) → Text → PubSubCreateError → RpcError
unfolding is_stale_creation remedy_stale
pub_sub_create_error debug context e =
    if is_stale_creation e
    then with_remedy context (debug e) remedy_stale
    else plain context (debug e)

unfoldable pub system_in_flux : Text → RpcError
unfolding remedy_stale
system_in_flux context = transport_error (
    context
    ++ (codes
          ": SystemInFlux. Either another process is creating or removing this service right now, in which case retrying works, or the state is left over from a process that died while it held it, in which case retrying cannot help and this persists: "
        ++ remedy_stale))

module _ {S : Type 0} (debug_open : PubSubOpenError → Text)
    (debug_create : PubSubCreateError → Text) where
  abbrev pub created : Result S OpenOrCreateError → Result S RpcError
  created (ok s) = ok s
  created (err (in_open e)) = err (pub_sub_open_error debug_open (codes "open service") e)
  created (err (in_create e)) = err (pub_sub_create_error debug_create (codes "create service") e)
  created (err in_flux) = err (system_in_flux (codes "open service"))

  abbrev pub opened : Result S PubSubOpenError → Result S RpcError
  opened (ok s) = ok s
  opened (err e) = err (pub_sub_open_error debug_open (codes "open service (read-only)") e)

  abbrev pub existing : Result S PubSubOpenError → Result (Option S) RpcError
  existing (ok s) = ok (some s)
  existing (err does_not_exist) = ok none
  existing (err e) = err (pub_sub_open_error debug_open (codes "open service (read-only)") e)

  -- What the service name, `open_or_create` and `open` answer decides.
  unfoldable pub open_service :
      OpenMode
      → Result (Unit {0}) Text
      → Result S OpenOrCreateError
      → Result S PubSubOpenError
      → Result S RpcError
  unfolding pub_sub_open_error pub_sub_create_error system_in_flux
  open_service mode (err name) created_service opened_service =
      err (plain (codes "service name") name)
  open_service create_or_open (ok u) created_service opened_service = created created_service
  open_service read_only (ok u) created_service opened_service = opened opened_service

  unfoldable pub open_existing_service :
      Result (Unit {0}) Text → Result S PubSubOpenError → Result (Option S) RpcError
  unfolding pub_sub_open_error
  open_existing_service (err name) opened_service = err (plain (codes "service name") name)
  open_existing_service (ok u) opened_service = existing opened_service

-- `retry_open`, with what each attempt answers and whether the token is cancelled behind it; the
-- first argument counts the attempts that are left. Beside the answer is how many were made.
-- Whether the loop gives up at this error.
unfoldable pub gives_up : RpcError → Bool → Bool → Bool
unfolding is_retryable
gives_up e spent stopped = not (is_retryable e) || (spent || stopped)

module _ {S : Type 0} where
  unfoldable pub or_again :
      Result S RpcError → Bool → Bool → ℕ → Result S RpcError × ℕ → Result S RpcError × ℕ
  unfolding gives_up
  or_again (ok s) spent stopped made again = (ok s, made)
  or_again (err e) spent stopped made again =
      if gives_up e spent stopped then (err e, made) else again

  unfoldable pub retry_open : ℕ → (ℕ → Result S RpcError) → (ℕ → Bool) → ℕ → Result S RpcError × ℕ
  unfolding or_again
  retry_open zero attempt stops made =
      or_again (attempt made) true (stops made) (suc made) (attempt made, suc made)
  retry_open (suc left) attempt stops made =
      let again = retry_open left attempt stops (suc made) in
      or_again (attempt made) false (stops made) (suc made) again
