-- ===== src/Transport/Open/Reported.antt =====
-- open.rs: which failures to open a service are worth another attempt.
use ice_rpc.Common.{◌≡◌, refl, ap, Bool, true, false, not, ◌||◌, none, some, Option, if◌then◌else◌}
use ice_rpc.Common.Text.{codes}
use ice_rpc.Common.Result.{Result, ok, err}
use ice_rpc.Rx.Event.{Text, RpcError, is_retryable}
use ice_rpc.Transport.Open.{
  create_or_open, read_only, PubSubOpenError, PubSubCreateError, OpenOrCreateError, in_open,
  in_create, in_flux, is_config_mismatch, is_stale_state, is_stale_creation, open_service,
  pub_sub_open_error, pub_sub_create_error, system_in_flux, open_existing_service, does_not_exist,
  plain, with_remedy, remedy_config, remedy_stale,
}

-- A failure that may pass: not a disagreement on the configuration, and not a state left behind.
abbrev pub may_pass : OpenOrCreateError → Bool
may_pass (in_open e) = not (is_config_mismatch e || is_stale_state e)
may_pass (in_create e) = not (is_stale_creation e)
may_pass in_flux = true

abbrev pub retryable {ℓ} : {S : Type ℓ} → Result S RpcError → Option Bool
retryable (ok s) = none
retryable (err e) = some (is_retryable e)

pub_sub_open_error-is_retryable :
    (debug : PubSubOpenError → Text) (context : Text) (e : PubSubOpenError)
    → is_retryable (pub_sub_open_error debug context e)
      ≡ not (is_config_mismatch e || is_stale_state e)
unfolding pub_sub_open_error is_retryable
pub_sub_open_error-is_retryable debug context e = go (is_config_mismatch e) (is_stale_state e)
  where
    go :
        (b c : Bool)
        → is_retryable (
            if b
            then with_remedy context (debug e) remedy_config
            else if c
            then with_remedy context (debug e) remedy_stale
            else plain context (debug e))
          ≡ not (b || c)
    go true c = refl
    go false true = refl
    go false false = refl

pub_sub_create_error-is_retryable :
    (debug : PubSubCreateError → Text) (context : Text) (e : PubSubCreateError)
    → is_retryable (pub_sub_create_error debug context e) ≡ not (is_stale_creation e)
unfolding pub_sub_create_error is_retryable
pub_sub_create_error-is_retryable debug context e = go (is_stale_creation e)
  where
    go :
        (b : Bool)
        → is_retryable
            (if b then with_remedy context (debug e) remedy_stale else plain context (debug e))
          ≡ not b
    go true = refl
    go false = refl

system_in_flux-is_retryable : (context : Text) → is_retryable (system_in_flux context) ≡ true
unfolding system_in_flux is_retryable
system_in_flux-is_retryable context = refl

module _ {S : Type 0} (debug_open : PubSubOpenError → Text)
    (debug_create : PubSubCreateError → Text) where
  -- A failure to open a service is reported as retryable exactly if it may pass, in either mode, and a
  -- service that does not exist is no failure for a probe.
  pub open_service-is_retryable :
      (e : OpenOrCreateError) (o : PubSubOpenError) (s : Result S PubSubOpenError)
      (c : Result S OpenOrCreateError)
      → (retryable (open_service debug_open debug_create create_or_open (ok tt) (err e) s)
          ≡ some (may_pass e))
        × (retryable (open_service debug_open debug_create read_only (ok tt) c (err o))
            ≡ some (may_pass (in_open o)))
        × (open_existing_service {S = S} debug_open debug_create (ok tt) (err does_not_exist)
            ≡ ok none)
  unfolding open_service open_existing_service
  open_service-is_retryable e o s c = (go e, read o, refl)
    where
      go :
          (e : OpenOrCreateError)
          → retryable (open_service debug_open debug_create create_or_open (ok tt) (err e) s)
            ≡ some (may_pass e)
      go (in_open x) = ap some (pub_sub_open_error-is_retryable debug_open (codes "open service") x)
      go (in_create x) =
          ap some (pub_sub_create_error-is_retryable debug_create (codes "create service") x)
      go in_flux = ap some (system_in_flux-is_retryable (codes "open service"))

      read :
          (o : PubSubOpenError)
          → retryable (open_service debug_open debug_create read_only (ok tt) c (err o))
            ≡ some (may_pass (in_open o))
      read x =
          ap some (pub_sub_open_error-is_retryable debug_open (codes "open service (read-only)") x)
