-- ===== src/Transport/Registration.antt =====
-- ice-rpc/src/transport/server.rs: the registration of services before their channels start. The
-- map of channels is a list; the stop token that every channel shares is left out.
pub mod Unique
use ice_rpc.Common.{
  ℕ, Bool, true, false, Option, none, some, List, [], ◌∷◌, ◌++◌, map, ◌==◌, if◌then◌else◌,
}
use ice_rpc.Common.Text.{codes}
use ice_rpc.Common.Result.{Result, ok, err}
use ice_rpc.Rx.Event.{Text, RpcError, transport_error}
use ice_rpc.Transport.Dispatcher.{ServiceDispatcher}
use ice_rpc.Transport.Hub.{same_id}
use ice_rpc.Transport.Server.{hex_id}

pub record RegisteredChannelService : Type 0 where
  pub name : Text
  pub dispatcher : ServiceDispatcher

-- The registry, whether it is sealed, and the channel threads spawned so far.
pub record ChannelRegistry : Type 0 where
  pub sealed : Bool
  pub pending : List (Text × List RegisteredChannelService)
  pub spawned : List (Text × List ServiceDispatcher)

abbrev pub conflicting_name : List RegisteredChannelService → ℕ → Option Text
conflicting_name [] id = none
conflicting_name (svc ∷ entries) id =
    if svc.dispatcher.service.id == id then some svc.name else conflicting_name entries id

-- What `entry(...).or_insert_with(...)` finds.
unfoldable pub services_of :
    Text → List (Text × List RegisteredChannelService) → List RegisteredChannelService
unfolding same_id
services_of channel [] = []
services_of channel ((c, services) ∷ pending) =
    if same_id c channel then services else services_of channel pending

unfoldable pub store :
    Text
    → List RegisteredChannelService
    → List (Text × List RegisteredChannelService)
    → List (Text × List RegisteredChannelService)
unfolding same_id
store channel services [] = (channel, services) ∷ []
store channel services ((c, old) ∷ pending) =
    let rest = store channel services pending in
    if same_id c channel then (c, services) ∷ pending else (c, old) ∷ rest

abbrev pub collision : Text → Text → Text → ℕ → RpcError
collision channel service_name previous service_id = transport_error (
    codes "service_id collision on channel '"
    ++ (channel
        ++ (codes "': '"
            ++ (service_name
                ++ (codes "' and '"
                    ++ (previous ++ (codes "' both map to " ++ hex_id service_id)))))))

-- The channel's entry is written back in either case: a refusal changes none of its services.
abbrev pub join :
    Option Text
    → Text
    → RegisteredChannelService
    → ChannelRegistry
    → Result (Unit {0}) RpcError × ChannelRegistry
join none channel svc r = (
  ok tt,
  record r { pending = store channel (services_of channel r.pending ++ svc ∷ []) r.pending },
)
join (some previous) channel svc r = (
  err (collision channel svc.name previous svc.dispatcher.service.id),
  record r { pending = store channel (services_of channel r.pending) r.pending },
)

unfoldable pub register_native_service :
    Text → RegisteredChannelService → ChannelRegistry → Result (Unit {0}) RpcError × ChannelRegistry
unfolding services_of store hex_id
register_native_service channel svc r =
    if r.sealed
    then (ok tt, record r { spawned = r.spawned ++ (channel, svc.dispatcher ∷ []) ∷ [] })
    else join (conflicting_name (services_of channel r.pending) svc.dispatcher.service.id) channel
        svc r

abbrev pub dispatchers : List RegisteredChannelService → List ServiceDispatcher
dispatchers services = map (λ svc. svc.dispatcher) services

-- A sealed registry has started already.
unfoldable pub start_registered_channels : ChannelRegistry → ChannelRegistry
start_registered_channels r = if r.sealed then r else record {
  sealed = true;
  pending = [];
  spawned = r.spawned ++ map (λ c. (c.0, dispatchers c.1)) r.pending;
}
