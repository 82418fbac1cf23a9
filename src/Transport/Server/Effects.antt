-- ===== src/Transport/Server/Effects.antt =====
-- server.rs: what samples and polls do to the registry of the calls in flight.
use ice_rpc.Common.{
  ℕ, ◌≡◌, refl, ap, ◌∙◌, arith, inl, inr, Option, none, some, List, [], ◌∷◌, Bool-cases,
}
use ice_rpc.Rx.Event.{RpcError, unknown_method, unknown_service}
use ice_rpc.Wire.Kind.{EventKind}
use ice_rpc.Wire.Header.{RpcHeader, kind_of}
use ice_rpc.Transport.Codec.{Bytes}
use ice_rpc.Transport.Dispatcher.{
  Task, done, yields, DispatchedRequest, MethodEntry, ServiceDispatcher, get, start, dispatch,
}
use ice_rpc.Transport.Hub.{
  Bus, ResponseHub, CancellableCall, token_of, without, is_cancelled, fire, register, cancel,
  unregister, publish, publish_each, poll_task, poll_call, drop_call, settle_call,
}
use ice_rpc.Transport.Server.{
  RequestRejection, rejection_error, hex_id, classify, Started, cancellable, reject, emit_encoded,
  begin, admit, emitter, select, on_kind, handle_request,
}

-- How a sample of the request channel changes the registry.
abbrev pub Registers : ResponseHub → ResponseHub × Started → Type 0
Registers hub (hub', cancellable c) =
    hub'.calls ≡ (c.request.correlation_id, c.token) ∷ without c.request.correlation_id hub.calls
Registers hub (hub', _) = hub'.calls ≡ hub.calls

abbrev pub LeavesOrEnds :
    CancellableCall → ResponseHub → ResponseHub × Option CancellableCall → Type 0
LeavesOrEnds call hub (hub', none) = hub'.calls ≡ without call.request.correlation_id hub.calls
LeavesOrEnds call hub (hub', some c) =
    (hub'.calls ≡ hub.calls) × (c.request ≡ call.request) × (c.token ≡ call.token)

module _ (bus : Bus) (encode : RpcError → Option Bytes) where
  calls-publish :
      (kind : EventKind) (h : RpcHeader) (b : Bytes) (hub : ResponseHub)
      → (publish bus kind h b hub).0.calls ≡ hub.calls
  unfolding publish
  calls-publish kind h b hub = ground arith

  calls-reject :
      (h : RpcHeader) (e : RpcError) (hub : ResponseHub)
      → (reject bus encode h e hub).calls ≡ hub.calls
  unfolding reject
  calls-reject h e hub = go (encode e)
    where
      go : (encoded : Option Bytes) → (emit_encoded bus encode encoded h hub).calls ≡ hub.calls
      go none = refl
      go (some b) = calls-publish EventKind.rpc_error h b hub

  calls-publish_each :
      (h : RpcHeader) (samples : List (EventKind × Bytes)) (hub : ResponseHub)
      → (publish_each bus h samples hub).0.calls ≡ hub.calls
  unfolding publish_each
  calls-publish_each h [] hub = refl
  calls-publish_each h ((kind, b) ∷ samples) hub =
      ground (
        arith,
        calls-publish kind h b hub,
        calls-publish_each h samples (publish bus kind h b hub).0,
      )

  calls-poll_task :
      (h : RpcHeader) (task : Task) (hub : ResponseHub)
      → (poll_task bus h task hub).0.calls ≡ hub.calls
  unfolding poll_task
  calls-poll_task h (done samples) hub = ground (arith, calls-publish_each h samples hub)
  calls-poll_task h (yields samples next) hub = ground (arith, calls-publish_each h samples hub)

  Registers-select :
      (found : Option ServiceDispatcher) (h : RpcHeader) (payload : Bytes) (hub : ResponseHub)
      → Registers hub (select bus encode found h payload hub)
  unfolding register dispatch emitter
  Registers-select none h payload hub = calls-reject h (unknown_service (hex_id h.service_id)) hub
  Registers-select (some d) h payload hub = admitted (classify d h)
    where
      begun :
          (r : ResponseHub × Option DispatchedRequest)
          → r.0.calls ≡ hub.calls
          → Registers hub (begin bus encode r h)
      begun (hub', none) same = calls-reject h (unknown_method (hex_id h.method_id)) hub' ∙ same
      begun (hub', some r) same = elim (Bool-cases r.expects_response) [
        | inl e ↦
            rw e (ap (λ c. (h.correlation_id, hub'.next_token) ∷ without h.correlation_id c) same)
        | inr e ↦ rw e same
      ]

      dispatched :
          (entry : Option MethodEntry)
          → (start (emitter bus encode h) entry h payload hub).0.calls ≡ hub.calls
      dispatched none = refl
      dispatched (some entry) = calls-publish_each h (entry.handler h payload).emitted hub

      admitted : (r : Option RequestRejection) → Registers hub (admit bus encode r d h payload hub)
      admitted none =
          begun (dispatch (emitter bus encode h) d h.method_id h payload hub)
            (dispatched (get h.method_id d.handlers))
      admitted (some r) = calls-reject h (rejection_error r) hub

  calls-cancel : (cid : List ℕ) (hub : ResponseHub) → (cancel cid hub).1.calls ≡ hub.calls
  unfolding cancel
  calls-cancel cid hub = go (token_of cid hub.calls)
    where
      go : (t : Option ℕ) → (fire t hub).1.calls ≡ hub.calls
      go none = refl
      go (some t) = refl

  -- A request that is started under its id replaces what was registered there; any other sample
  -- leaves the registry alone.
  pub Registers-handle_request :
      (table : List (ℕ × ServiceDispatcher)) (h : RpcHeader) (payload : Bytes) (hub : ResponseHub)
      → Registers hub (handle_request bus encode table h payload hub)
  unfolding handle_request
  Registers-handle_request table h payload hub = go (kind_of h)
    where
      go : (kind : EventKind) → Registers hub (on_kind bus encode kind table h payload hub)
      go EventKind.request = Registers-select (get h.service_id table) h payload hub
      go EventKind.cancel = calls-cancel h.correlation_id hub
      go _ = refl

  -- A poll leaves the registry alone, and takes out its call when it ends.
  pub calls-poll_call :
      (call : CancellableCall) (hub : ResponseHub) → LeavesOrEnds call hub (poll_call bus call hub)
  unfolding poll_call drop_call unregister
  calls-poll_call call hub = elim (Bool-cases (is_cancelled call.token hub.fired)) [
    | inl e ↦ rw e refl
    | inr e ↦ rw e (
        settled (poll_task bus call.request call.task hub)
          (calls-poll_task call.request call.task hub))
  ]
    where
      settled :
          (r : ResponseHub × Option Task)
          → r.0.calls ≡ hub.calls
          → LeavesOrEnds call hub (settle_call call r)
      settled (hub', none) h = ap (without call.request.correlation_id) h
      settled (hub', some task) h = elim (Bool-cases (is_cancelled call.token hub'.fired)) [
        | inl e ↦ rw e (ap (without call.request.correlation_id) h)
        | inr e ↦ rw e (h, refl, refl)
      ]
