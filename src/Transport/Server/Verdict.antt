-- ===== src/Transport/Server/Verdict.antt =====
-- server.rs: every request is either started or answered with the error that its header earns.
use ice_rpc.Common.{
  ℕ, suc, ◌≡◌, ◌≢◌, refl, Bool, true, false, not, Option, none, some, List, [], ◌∷◌, ◌++◌, map,
  ◌==◌, if◌then◌else◌, All,
}
use ice_rpc.Common.Text.{codes}
use ice_rpc.Common.Digits.{decimal}
use ice_rpc.Rx.Event.{
  RpcError, unknown_method, unknown_service, incompatible_version, protocol_mismatch,
}
use ice_rpc.Wire.Kind.{EventKind, request, cancel}
use ice_rpc.Wire.Header.{RpcHeader, protocol_version, kind_of}
use ice_rpc.Transport.Codec.{Bytes}
use ice_rpc.Transport.Dispatcher.{MethodEntry, ServiceDispatcher, get}
use ice_rpc.Transport.Hub.{Bus, ResponseHub, token_of, same_id}
use ice_rpc.Transport.Hub
use ice_rpc.Transport.Hub.Numbering.{Sample, Answers}
use ice_rpc.Transport.Hub.Sends.{Sends, delivered}
use ice_rpc.Transport.Server.{
  hex_id, protocol, Started, nothing, detached, cancellable, on_kind, handle_request,
}

-- What a request is told, or the method that serves it, in the order of the checks.
pub data Verdict : Type 0 where
  refused : RpcError → Verdict
  served : MethodEntry → Verdict

abbrev method_verdict : ℕ → Option MethodEntry → Verdict
method_verdict id none = refused (unknown_method (hex_id id))
method_verdict id (some entry) = served entry

abbrev service_verdict : RpcHeader → Option ServiceDispatcher → Verdict
service_verdict h none = refused (unknown_service (hex_id h.service_id))
service_verdict h (some d) =
    if not (h.protocol == protocol_version)
    then refused (
        protocol_mismatch (
          codes "protocol_version "
          ++ (decimal 5 h.protocol ++ (codes " != " ++ decimal 5 protocol_version))))
    else if not (h.service_version == d.service.version)
    then refused (incompatible_version d.service.version h.service_version)
    else method_verdict h.method_id (get h.method_id d.handlers)

pub verdict : List (ℕ × ServiceDispatcher) → RpcHeader → Verdict
verdict table h = service_verdict h (get h.service_id table)

abbrev pub started : MethodEntry → RpcHeader → Bytes → ℕ → Started
started entry h payload token =
    if entry.oneway
    then detached h (entry.handler h payload).task
    else cancellable (record { request = h; token = token; task = (entry.handler h payload).task })

abbrev is_cancel : EventKind → Bool
is_cancel cancel = true
is_cancel _ = false

-- The answer that an error makes, if it encodes.
abbrev pub answer_of : Option Bytes → List (EventKind × Bytes)
answer_of none = []
answer_of (some bytes) = (EventKind.rpc_error, bytes) ∷ []

-- Behind `sent`, which is what the samples leave of the hub, the request is registered: the token that
-- any id finds, the next token, and what else there is.
abbrev pub Admits : Bool → RpcHeader → List ℕ → ResponseHub → ResponseHub → Type 0
Admits oneway h other hub hub' =
    (token_of other hub'.calls ≡ (
      if oneway
      then token_of other hub.calls
      else if same_id h.correlation_id other
      then some hub.next_token
      else token_of other hub.calls))
    × (hub'.next_token ≡ (if oneway then hub.next_token else suc hub.next_token))
    × (hub'.fired ≡ hub.fired)

-- Of what a request publishes: these samples, as far as they are delivered, under headers that answer
-- it.
abbrev pub Publishes :
    Bus → RpcHeader → List (EventKind × Bytes) → ResponseHub → ResponseHub → Type 0
Publishes bus h samples hub hub' =
    (new : List Sample) × (hub'.published ≡ hub.published ++ new)
    × (map (λ s. (s.0.event_kind, s.1)) new ≡ delivered bus hub.seq samples)
    × All (λ s. Answers h s.0) new

-- What the verdict asks of the hub and of the runtime; `other` is any correlation id.
abbrev pub Obeys :
    Bus
    → (RpcError → Option Bytes)
    → List ℕ
    → Verdict
    → RpcHeader
    → Bytes
    → ResponseHub
    → ResponseHub × Started
    → Type 0
Obeys bus encode other (refused e) h payload hub r =
    Sends bus h (answer_of (encode e)) hub r.0 × (r.1 ≡ nothing)
Obeys bus encode other (served entry) h payload hub r =
    Publishes bus h (entry.handler h payload).emitted hub r.0
    × Admits entry.oneway h other hub r.0
    × (r.1 ≡ started entry h payload hub.next_token)

module _ (bus : Bus) (encode : RpcError → Option Bytes) where
  -- A sample of another kind is never answered and starts nothing; a Cancel changes at most which
  -- tokens are fired, and any other changes nothing.
  pub handle_request-other :
      (table : List (ℕ × ServiceDispatcher)) (h : RpcHeader) (payload : Bytes) (hub : ResponseHub)
      → kind_of h ≢ request
      → let r = handle_request bus encode table h payload hub in
        (r.1 ≡ nothing)
        × (r.0 ≡ (if is_cancel (kind_of h) then (Hub.cancel h.correlation_id hub).1 else hub))
  unfolding handle_request
  handle_request-other table h payload hub k = other (kind_of h) k
    where
      other :
          (kind : EventKind)
          → kind ≢ request
          → let r = on_kind bus encode kind table h payload hub in
            (r.1 ≡ nothing)
            × (r.0 ≡ (if is_cancel kind then (Hub.cancel h.correlation_id hub).1 else hub))
      other request n = absurd (n refl)
      other cancel n = (refl, refl)
      other _ n = (refl, refl)
