-- ===== src/Transport/Registration/Unique.antt =====
-- server.rs: no thread of a channel is given two services under one id, so that its table finds each
-- of them.
use ice_rpc.Common.{
  ℕ, ◌≡◌, refl, arith, Bool, false, ◌||◌, Option, none, some, List, [], ◌∷◌, ◌++◌, map, ◌==◌, All,
  All-append, Bool-cases, inl, inr,
}
use ice_rpc.Rx.Event.{Text}
use ice_rpc.Transport.Dispatcher.{ServiceDispatcher, get, insert, get-insert}
use ice_rpc.Transport.Hub.{same_id}
use ice_rpc.Transport.Server.{service_table}
use ice_rpc.Transport.Registration.{
  RegisteredChannelService, ChannelRegistry, conflicting_name, services_of, store, join,
  register_native_service, dispatchers, start_registered_channels,
}

abbrev pub serves : ℕ → List ServiceDispatcher → Bool
serves id [] = false
serves id (d ∷ ds) = d.service.id == id || serves id ds

abbrev pub IsUnique : List ServiceDispatcher → Type 0
IsUnique [] = Unit
IsUnique (d ∷ ds) = (serves d.service.id ds ≡ false) × IsUnique ds

serves-dispatchers :
    (services : List RegisteredChannelService) (id : ℕ)
    → conflicting_name services id ≡ none
    → serves id (dispatchers services) ≡ false
serves-dispatchers [] id h = refl
serves-dispatchers (svc ∷ services) id h = ground (arith, serves-dispatchers services id)

serves-snoc :
    (services : List RegisteredChannelService) (svc : RegisteredChannelService) (id : ℕ)
    → serves id (dispatchers services) ≡ false
    → (svc.dispatcher.service.id == id) ≡ false
    → serves id (dispatchers (services ++ svc ∷ [])) ≡ false
serves-snoc [] svc id h k = ground arith
serves-snoc (s ∷ services) svc id h k = ground (arith, serves-snoc services svc id)

IsUnique-snoc :
    (services : List RegisteredChannelService) (svc : RegisteredChannelService)
    → IsUnique (dispatchers services)
    → conflicting_name services svc.dispatcher.service.id ≡ none
    → IsUnique (dispatchers (services ++ svc ∷ []))
IsUnique-snoc [] svc u h = (refl, tt)
IsUnique-snoc (s ∷ services) svc (free, u) h =
    let apart : (svc.dispatcher.service.id == s.dispatcher.service.id) ≡ false = ground arith in
    let later : conflicting_name services svc.dispatcher.service.id ≡ none = ground arith in
    (
      serves-snoc services svc s.dispatcher.service.id free apart,
      IsUnique-snoc services svc u later,
    )

abbrev pub AreUnique : List (Text × List RegisteredChannelService) → Type 0
AreUnique pending = All (λ c. IsUnique (dispatchers c.1)) pending

abbrev pub AreServed : List (Text × List ServiceDispatcher) → Type 0
AreServed spawned = All (λ c. IsUnique c.1) spawned

services_of-IsUnique :
    (channel : Text) (pending : List (Text × List RegisteredChannelService))
    → AreUnique pending
    → IsUnique (dispatchers (services_of channel pending))
unfolding services_of
services_of-IsUnique channel [] a = tt
services_of-IsUnique channel ((c, services) ∷ pending) (u, a) =
    elim (Bool-cases (same_id c channel)) [
      | inl e ↦ rw e u
      | inr e ↦ rw e (services_of-IsUnique channel pending a)
    ]

store-AreUnique :
    (channel : Text) (services : List RegisteredChannelService)
    (pending : List (Text × List RegisteredChannelService))
    → IsUnique (dispatchers services)
    → AreUnique pending
    → AreUnique (store channel services pending)
unfolding store
store-AreUnique channel services [] v a = (v, tt)
store-AreUnique channel services ((c, old) ∷ pending) v (u, a) =
    elim (Bool-cases (same_id c channel)) [
      | inl e ↦ rw e (v, a)
      | inr e ↦ rw e (u, store-AreUnique channel services pending v a)
    ]

spawned_unique :
    (pending : List (Text × List RegisteredChannelService))
    → AreUnique pending
    → AreServed (map (λ c. (c.0, dispatchers c.1)) pending)
spawned_unique [] a = tt
spawned_unique (c ∷ pending) (u, a) = (u, spawned_unique pending a)

-- Neither a channel that waits for its start nor a thread that was spawned has an id twice.
unfoldable pub IsValid : ChannelRegistry → Type 0
IsValid r = AreUnique r.pending × AreServed r.spawned

join-IsValid :
    (previous : Option Text) (channel : Text) (svc : RegisteredChannelService) (r : ChannelRegistry)
    → conflicting_name (services_of channel r.pending) svc.dispatcher.service.id ≡ previous
    → IsValid r
    → IsValid (join previous channel svc r).1
unfolding IsValid
join-IsValid none channel svc r h (a, b) =
    let u = services_of-IsUnique channel r.pending a in
    (
      store-AreUnique channel _ r.pending (IsUnique-snoc (services_of channel r.pending) svc u h) a,
      b,
    )
join-IsValid (some previous) channel svc r h (a, b) =
    (store-AreUnique channel _ r.pending (services_of-IsUnique channel r.pending a) a, b)

-- Whatever services are registered, before or after the start and with whatever outcome, and whenever
-- the channels are started, no channel that waits for its start and no single spawned thread has two
-- services under one id. A service that is registered behind the start has a thread of its own, and
-- is not compared with those that other threads of its channel serve.
pub registry-IsValid :
    (r : ChannelRegistry)
    → IsValid r
    → ((channel : Text) (svc : RegisteredChannelService)
        → IsValid (register_native_service channel svc r).1)
      × IsValid (start_registered_channels r)
unfolding IsValid register_native_service start_registered_channels
registry-IsValid r (a, b) = elim (Bool-cases r.sealed) [
  | inl e ↦ (
    λ channel svc. simp (e) (a, All-append (λ c. IsUnique c.1) r.spawned _ b ((refl, tt), tt)),
    simp (e) (a, b),
  )
  | inr e ↦ (
    λ channel svc. simp (e) (join-IsValid _ channel svc r refl (a, b)),
    simp (e) (tt, All-append (λ c. IsUnique c.1) r.spawned _ b (spawned_unique r.pending a)),
  )
]

table-absent :
    (table : List (ℕ × ServiceDispatcher)) (ds : List ServiceDispatcher) (id : ℕ)
    → serves id ds ≡ false
    → get id (service_table table ds) ≡ get id table
unfolding service_table
table-absent table [] id h = refl
table-absent table (d ∷ ds) id h =
    let later = table-absent (insert d.service.id d table) ds id in
    let here' = get-insert d.service.id id d table in ground arith

-- The table of a channel's services, whatever was in it before, finds each service that the channel
-- serves under the id of that service, and finds under any other id what it found before.
pub service_table-routes :
    (table : List (ℕ × ServiceDispatcher)) (before after : List ServiceDispatcher)
    (d : ServiceDispatcher)
    → IsUnique (before ++ d ∷ after)
    → (get d.service.id (service_table table (before ++ d ∷ after)) ≡ some d)
      × ((id : ℕ)
          → serves id (before ++ d ∷ after) ≡ false
          → get id (service_table table (before ++ d ∷ after)) ≡ get id table)
unfolding service_table
service_table-routes table before after d u =
    (routed before table u, λ id h. table-absent table (before ++ d ∷ after) id h)
  where
    routed :
        (before : List ServiceDispatcher) (table : List (ℕ × ServiceDispatcher))
        → IsUnique (before ++ d ∷ after)
        → get d.service.id (service_table table (before ++ d ∷ after)) ≡ some d
    routed [] table (free, u) =
        let later = table-absent (insert d.service.id d table) after d.service.id free in
        let here' = get-insert d.service.id d.service.id d table in ground arith
    routed (b ∷ before) table (free, u) = routed before (insert b.service.id b table) u
