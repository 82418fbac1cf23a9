-- ===== src/Transport/Open/Events.antt =====
-- ice-rpc/src/transport/open.rs: the event service of a channel, and what its failures are reported as.
use ice_rpc.Common.{ℕ, ◌≡◌, refl, ap, Bool, true, false, not, ◌||◌, some, if◌then◌else◌}
use ice_rpc.Common.Text.{codes}
use ice_rpc.Common.Result.{Result, ok, err}
use ice_rpc.Rx.Event.{Text, RpcError, is_retryable}
use ice_rpc.Transport.Open.{
  OpenMode, create_or_open, read_only, plain, with_remedy, remedy_config, remedy_stale,
  system_in_flux,
}
use ice_rpc.Transport.Open.Reported.{retryable}

-- EventOpenError.
pub data EventOpenError : Type 0 where
  incompatible_messaging_pattern incompatible_attributes incompatible_deadline : EventOpenError
  incompatible_notifier_created_event incompatible_notifier_dropped_event : EventOpenError
  incompatible_notifier_dead_event : EventOpenError
  amount_of_notifiers amount_of_listeners max_event_id amount_of_nodes : EventOpenError
  service_in_corrupted_state hangs_in_creation : EventOpenError
  other_open : ℕ → EventOpenError

-- EventCreateError.
pub data EventCreateError : Type 0 where
  corrupted : EventCreateError
  other_create : ℕ → EventCreateError

-- EventOpenOrCreateError.
pub data EventOpenOrCreateError : Type 0 where
  event_open : EventOpenError → EventOpenOrCreateError
  event_create : EventCreateError → EventOpenOrCreateError
  event_in_flux : EventOpenOrCreateError

unfoldable pub is_event_mismatch : EventOpenError → Bool
is_event_mismatch service_in_corrupted_state = false
is_event_mismatch hangs_in_creation = false
is_event_mismatch (other_open n) = false
is_event_mismatch _ = true

unfoldable pub is_stale_event : EventOpenError → Bool
is_stale_event service_in_corrupted_state = true
is_stale_event hangs_in_creation = true
is_stale_event _ = false

unfoldable pub event_open_error : (EventOpenError → Text) → Text → EventOpenError → RpcError
unfolding is_event_mismatch is_stale_event remedy_config remedy_stale
event_open_error debug context e =
    if is_event_mismatch e
    then with_remedy context (debug e) remedy_config
    else if is_stale_event e
    then with_remedy context (debug e) remedy_stale
    else plain context (debug e)

unfoldable pub event_create_error : (EventCreateError → Text) → Text → EventCreateError → RpcError
unfolding remedy_stale
event_create_error debug context corrupted = with_remedy context (debug corrupted) remedy_stale
event_create_error debug context (other_create n) = plain context (debug (other_create n))

module _ (debug_open : EventOpenError → Text) (debug_create : EventCreateError → Text) where
  unfoldable pub event_error : EventOpenOrCreateError → RpcError
  unfolding event_open_error event_create_error system_in_flux
  event_error (event_open e) = event_open_error debug_open (codes "open event") e
  event_error (event_create e) = event_create_error debug_create (codes "create event") e
  event_error event_in_flux = system_in_flux (codes "open event service")

module _ {S : Type 0} (debug_open : EventOpenError → Text)
    (debug_create : EventCreateError → Text) where
  abbrev pub created_event : Result S EventOpenOrCreateError → Result S RpcError
  created_event (ok s) = ok s
  created_event (err e) = err (event_error debug_open debug_create e)

  abbrev pub opened_event : Result S EventOpenError → Result S RpcError
  opened_event (ok s) = ok s
  opened_event (err e) =
      err (event_open_error debug_open (codes "open event service (read-only)") e)

  -- What the service name, `open_or_create` and `open` answer decides.
  unfoldable pub open_event_service :
      OpenMode
      → Result (Unit {0}) Text
      → Result S EventOpenOrCreateError
      → Result S EventOpenError
      → Result S RpcError
  unfolding event_error event_open_error
  open_event_service mode (err name) created opened = err (plain (codes "service name") name)
  open_event_service create_or_open (ok u) created opened = created_event created
  open_event_service read_only (ok u) created opened = opened_event opened

-- An event failure that may pass.
abbrev pub event_may_pass : EventOpenOrCreateError → Bool
event_may_pass (event_open e) = not (is_event_mismatch e || is_stale_event e)
event_may_pass (event_create corrupted) = false
event_may_pass (event_create (other_create n)) = true
event_may_pass event_in_flux = true

-- Which of the two failures is reported.
abbrev pub reported : OpenMode → EventOpenOrCreateError → EventOpenError → EventOpenOrCreateError
reported create_or_open e o = e
reported read_only e o = event_open o

event_open_error-is_retryable :
    (debug : EventOpenError → Text) (context : Text) (e : EventOpenError)
    → is_retryable (event_open_error debug context e)
      ≡ not (is_event_mismatch e || is_stale_event e)
unfolding event_open_error is_retryable
event_open_error-is_retryable debug context e = go (is_event_mismatch e) (is_stale_event e)
  where
    go :
        (b c : Bool)
        → is_retryable (
            if b
            then with_remedy context (debug e) remedy_config
            else if c
            then with_remedy context (debug e) remedy_stale
            else plain context (debug e))
          ≡ not (b || c)
    go true c = refl
    go false true = refl
    go false false = refl

module _ (S : Type 0) (debug_open : EventOpenError → Text)
    (debug_create : EventCreateError → Text) where
  -- A failure to open an event service is reported as retryable exactly if it may pass, in either mode.
  pub open_event_service-is_retryable :
      (mode : OpenMode) (e : EventOpenOrCreateError) (o : EventOpenError)
      → retryable (open_event_service {S = S} debug_open debug_create mode (ok tt) (err e) (err o))
        ≡ some (event_may_pass (reported mode e o))
  unfolding open_event_service event_error is_retryable event_create_error system_in_flux
  open_event_service-is_retryable create_or_open (event_open x) o =
      ap some (event_open_error-is_retryable debug_open (codes "open event") x)
  open_event_service-is_retryable create_or_open (event_create corrupted) o = refl
  open_event_service-is_retryable create_or_open (event_create (other_create n)) o = refl
  open_event_service-is_retryable create_or_open event_in_flux o = refl
  open_event_service-is_retryable read_only e o =
      ap some (event_open_error-is_retryable debug_open (codes "open event service (read-only)") o)
