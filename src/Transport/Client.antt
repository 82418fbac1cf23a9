-- ===== src/Transport/Client.antt =====
-- ice-rpc/src/transport/client.rs: the calls of one consumer channel. A correlation id is any type
-- with decidable equality; the unbounded channel behind a call is the list of what was sent into it.
use mathlib.Core.Logic.{ite}
use ice_rpc.Common.{
  ◌≡◌, refl, ◌≢◌, arith, Bool, true, false, not, ◌&&◌, Option, none, some, List, [], ◌∷◌, ◌++◌,
  if◌then◌else◌,
}
use ice_rpc.Common.Text.{codes}
use ice_rpc.Common.Result.{Result, ok, err}
use ice_rpc.Rx.Event.{Event, Text, RpcError, technical, transport_error}
use ice_rpc.Wire.Kind.{EventKind, rpc_error}
use ice_rpc.Wire.Event.{WireEvent, is_terminal, normalize_wire_event}
use ice_rpc.Transport.Codec.{Bytes, Codec}

-- One call's channel: the events sent, and whether the receiving stream is still there.
pub record Inbox {ℓ κ} (T : Type ℓ) (E : Type κ) : Type (ℓ ⊔ κ) where
  pub events : List (Event T E)
  pub receiver : Bool

abbrev is_rpc_error : EventKind → Bool
is_rpc_error rpc_error = true
is_rpc_error _ = false

module _ {ℓ κ} {T : Type ℓ} {E : Type κ} where
  -- `try_send_event` into an unbounded channel fails only when the receiver is gone.
  abbrev pub try_send_event : Event T E → Inbox T E → Inbox T E × Bool
  try_send_event e i =
      if i.receiver then (record i { events = i.events ++ e ∷ [] }, true) else (i, false)

  abbrev pub send_follow_up : Option (Event T E) → Inbox T E → Inbox T E
  send_follow_up none i = i
  send_follow_up (some e) i = (try_send_event e i).0

  -- `transport_error(context, err)`, wrapped as the code sends it.
  abbrev pub failure : Text → Text → Event T E
  failure context e = Event.error (technical (transport_error (context ++ (codes ": " ++ e))))

  abbrev pub rpc_error_event : Result RpcError Text → Event T E
  rpc_error_event (ok e) = Event.error (technical e)
  rpc_error_event (err e) = failure (codes "decode rpc error") e

  -- A decoded sample: its event, its follow-up, and whether the handler stays registered.
  abbrev pub on_wire : Result (WireEvent T E) Text → Inbox T E → Inbox T E × Bool
  on_wire (err e) i = ((try_send_event (failure (codes "decode response") e) i).0, false)
  on_wire (ok wire) i =
      let (event, follow_up) = normalize_wire_event wire in
      let (i', sent) = try_send_event event i in
      if sent then (send_follow_up follow_up i', not (is_terminal wire)) else (i', false)

  -- The closure that `native_call` registers; the Boolean says that it keeps its registration.
  unfoldable pub response_handler : Codec T E → EventKind → Bytes → Inbox T E → Inbox T E × Bool
  unfolding normalize_wire_event is_terminal
  response_handler c kind bytes i =
      if is_rpc_error kind
      then ((try_send_event (rpc_error_event (c.decode_rpc_error bytes)) i).0, false)
      else on_wire (c.decode_wire bytes) i

module _ {ℓ κ} (K : Type 0) (T : Type ℓ) (E : Type κ) where
  -- The handlers by correlation id, the inboxes that they feed, and the Cancels published.
  pub record ConsumerPorts : Type (ℓ ⊔ κ) where
    pub handlers : List K
    pub inbox : K → Inbox T E
    pub cancels : List K

module _ {K : Type 0} (dec : Discrete K) where
  abbrev pub contains : K → List K → Bool
  contains cid [] = false
  contains cid (k ∷ ks) = ite (dec k cid) true (contains cid ks)

  abbrev pub remove : K → List K → List K
  remove cid [] = []
  remove cid (k ∷ ks) = ite (dec k cid) (remove cid ks) (k ∷ remove cid ks)

  pub contains-remove : (cid : K) (ks : List K) → contains cid (remove cid ks) ≡ false
  contains-remove cid [] = refl
  contains-remove cid (k ∷ ks) = ground (arith, contains-remove cid ks)

  pub contains-remove_ne :
      (cid other : K) (ks : List K)
      → other ≢ cid
      → contains other (remove cid ks) ≡ contains other ks
  contains-remove_ne cid other [] h = refl
  contains-remove_ne cid other (k ∷ ks) h = ground (arith, contains-remove_ne cid other ks h)

module _ {ℓ κ} {K : Type 0} {T : Type ℓ} {E : Type κ} (dec : Discrete K) where
  abbrev pub update : K → Inbox T E → (K → Inbox T E) → K → Inbox T E
  update cid i f k = ite (dec k cid) i (f k)

  -- Whether a handler was registered, as well.
  unfoldable pub release_handler : K → ConsumerPorts K T E → ConsumerPorts K T E × Bool
  release_handler cid p =
      (record p { handlers = remove dec cid p.handlers }, contains dec cid p.handlers)

  -- The part of `native_call` before the publication of the request.
  unfoldable pub register_handler : K → ConsumerPorts K T E → ConsumerPorts K T E
  register_handler cid p = record p {
    handlers = cid ∷ remove dec cid p.handlers;
    inbox = update cid (record { events = []; receiver = true }) p.inbox;
  }

  -- `native_call`, given what the publication of the request answers.
  unfoldable pub native_call :
      K
      → Result (Unit {0}) RpcError
      → ConsumerPorts K T E
      → ConsumerPorts K T E × Result (Unit {0}) RpcError
  unfolding register_handler release_handler
  native_call cid (ok published) p = (register_handler cid p, ok published)
  native_call cid (err e) p = ((release_handler cid (register_handler cid p)).0, err e)

  abbrev keep_or_release : K → Bool → ConsumerPorts K T E → ConsumerPorts K T E
  keep_or_release cid true p = p
  keep_or_release cid false p = record p { handlers = remove dec cid p.handlers }

  -- The callback of the response dispatcher: a sample nobody waits for is dropped.
  unfoldable pub dispatch_response :
      Codec T E → K → EventKind → Bytes → ConsumerPorts K T E → ConsumerPorts K T E
  unfolding response_handler
  dispatch_response c cid kind bytes p =
      let (i, kept) = response_handler c kind bytes (p.inbox cid) in
      if contains dec cid p.handlers
      then keep_or_release cid kept (record p { inbox = update cid i p.inbox })
      else p

  -- The cleanup that runs when the stream of a call is dropped.
  unfoldable pub drop_stream : K → Bool → ConsumerPorts K T E → ConsumerPorts K T E
  unfolding release_handler
  drop_stream cid terminated p =
      let (q, in_flight) = release_handler cid p in
      let gone = record q {
        inbox = update cid (record (q.inbox cid) { receiver = false }) q.inbox;
      } in
      if not terminated && in_flight
      then record gone { cancels = gone.cancels ++ cid ∷ [] }
      else gone
