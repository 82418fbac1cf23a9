-- ===== src/Transport/Serve.antt =====
-- server.rs: the thread of one channel. Whether its ports open is an argument; the samples are those
-- that the receive loop hands over before the stop.
use ice_rpc.Common.{
  ℕ, ◌≡◌, refl, sym, ap, ◌∙◌, Bool, true, Option, List, [], ◌∷◌, ◌++◌, if◌then◌else◌, All,
}
use ice_rpc.Rx.Event.{RpcError}
use ice_rpc.Wire.Kind.{EventKind, request, next, complete, error, rpc_error, cancel}
use ice_rpc.Wire.Header.{RpcHeader, kind_of}
use ice_rpc.Transport.Codec.{Bytes}
use ice_rpc.Transport.Dispatcher.{ServiceDispatcher, get}
use ice_rpc.Transport.Hub.{Bus, ResponseHub, new_hub}
use ice_rpc.Transport.Server.{Started, service_table, select, on_kind, handle_request}
use ice_rpc.Transport.Registration.Unique.{IsUnique, service_table-routes}

module _ (bus : Bus) (encode : RpcError → Option Bytes) where
  unfoldable pub receive_each :
      List (ℕ × ServiceDispatcher)
      → List (RpcHeader × Bytes)
      → ResponseHub
      → ResponseHub × List Started
  unfolding handle_request
  receive_each table [] hub = (hub, [])
  receive_each table ((h, payload) ∷ samples) hub =
      let (hub', one) = handle_request bus encode table h payload hub in
      let (hub'', others) = receive_each table samples hub' in (hub'', one ∷ others)

  unfoldable pub spawn_native_service :
      Bool → List ServiceDispatcher → List (RpcHeader × Bytes) → ResponseHub × List Started
  unfolding receive_each service_table new_hub
  spawn_native_service opens services samples =
      let served = receive_each (service_table [] services) samples new_hub in
      if opens then served else (new_hub, [])

  on_kind-table :
      (kind : EventKind) (t u : List (ℕ × ServiceDispatcher)) (h : RpcHeader) (payload : Bytes)
      (hub : ResponseHub)
      → get h.service_id t ≡ get h.service_id u
      → on_kind bus encode kind t h payload hub ≡ on_kind bus encode kind u h payload hub
  on_kind-table request t u h payload hub e = ap (λ found. select bus encode found h payload hub) e
  on_kind-table next t u h payload hub e = refl
  on_kind-table complete t u h payload hub e = refl
  on_kind-table error t u h payload hub e = refl
  on_kind-table rpc_error t u h payload hub e = refl
  on_kind-table cancel t u h payload hub e = refl

  handle_request-table :
      (t u : List (ℕ × ServiceDispatcher)) (h : RpcHeader) (payload : Bytes) (hub : ResponseHub)
      → get h.service_id t ≡ get h.service_id u
      → handle_request bus encode t h payload hub ≡ handle_request bus encode u h payload hub
  unfolding handle_request
  handle_request-table t u h payload hub e = on_kind-table (kind_of h) t u h payload hub e

  receive_each-table :
      (id : ℕ) (t u : List (ℕ × ServiceDispatcher)) (samples : List (RpcHeader × Bytes))
      (hub : ResponseHub)
      → get id t ≡ get id u
      → All (λ s. s.0.service_id ≡ id) samples
      → receive_each t samples hub ≡ receive_each u samples hub
  unfolding receive_each
  receive_each-table id t u [] hub e a = refl
  receive_each-table id t u ((h, payload) ∷ samples) hub e (own, a) =
      let here' =
        handle_request-table t u h payload hub
          (ap (λ i. get i t) own ∙ e ∙ sym (ap (λ i. get i u) own)) in
      rw here' (
        ap (λ r. (r.0, (handle_request bus encode u h payload hub).1 ∷ r.1))
          (receive_each-table id t u samples (handle_request bus encode u h payload hub).0 e a))

  -- While all samples are for one service of a channel that serves no id twice, the thread publishes,
  -- registers and starts exactly what the thread of a channel with this service alone does.
  pub spawn_native_service-alone :
      (before after : List ServiceDispatcher) (d : ServiceDispatcher)
      (samples : List (RpcHeader × Bytes))
      → IsUnique (before ++ d ∷ after)
      → All (λ s. s.0.service_id ≡ d.service.id) samples
      → spawn_native_service true (before ++ d ∷ after) samples
        ≡ spawn_native_service true (d ∷ []) samples
  unfolding spawn_native_service
  spawn_native_service-alone before after d samples u a =
      receive_each-table d.service.id _ _ samples new_hub
        ((service_table-routes [] before after d u).0
          ∙ sym ((service_table-routes [] [] [] d (refl, tt)).0))
        a
