-- ===== src/Transport/Hub.antt =====
-- ice-rpc/src/transport/server.rs: the response hub of a channel, the registry of the calls in
-- flight, and a call that a Cancel can end. What the bus does with a sample and what the clock reads
-- are the functions of a `Bus`; a sample is known to them by its sequence number.
pub mod Numbering
pub mod Tokens
pub mod Sends
use ice_rpc.Common.{
  ℕ, suc, ◌+◌, ◌%◌, ◌^◌, Bool, true, false, Option, none, some, List, [], ◌∷◌, ◌++◌, ◌==◌, ◌&&◌,
  ◌||◌, if◌then◌else◌,
}
use ice_rpc.Rx.Event.{RpcError}
use ice_rpc.Wire.Kind.{EventKind}
use ice_rpc.Wire.Header.{RpcHeader, response_from, with_seq}
use ice_rpc.Transport.Codec.{Bytes}
use ice_rpc.Transport.Dispatcher.{Task, done, yields}

pub record Bus : Type 0 where
  pub clock : ℕ → ℕ
  pub delivers : ℕ → Bool

-- Whether two correlation ids have the same bytes.
unfoldable pub same_id : List ℕ → List ℕ → Bool
same_id [] [] = true
same_id [] (b ∷ bs) = false
same_id (a ∷ as') [] = false
same_id (a ∷ as') (b ∷ bs) = a == b && same_id as' bs

pub record ResponseHub : Type 0 where
  pub seq : ℕ  -- AtomicU64
  pub calls : List (List ℕ × ℕ)  -- the token of each call in flight
  pub fired : List ℕ  -- the tokens that are cancelled
  pub next_token : ℕ
  pub published : List (RpcHeader × Bytes)

unfoldable pub new_hub : ResponseHub
new_hub = record { seq = 0; calls = []; fired = []; next_token = 0; published = [] }

-- The registry `InFlightCalls`.
unfoldable pub token_of : List ℕ → List (List ℕ × ℕ) → Option ℕ
unfolding same_id
token_of cid [] = none
token_of cid ((k, t) ∷ calls) = if same_id k cid then some t else token_of cid calls

unfoldable pub without : List ℕ → List (List ℕ × ℕ) → List (List ℕ × ℕ)
unfolding same_id
without cid [] = []
without cid ((k, t) ∷ calls) =
    let rest = without cid calls in if same_id k cid then rest else (k, t) ∷ rest

abbrev pub is_cancelled : ℕ → List ℕ → Bool
is_cancelled t [] = false
is_cancelled t (f ∷ fired) = f == t || is_cancelled t fired

unfoldable pub register : List ℕ → ResponseHub → ℕ × ResponseHub
unfolding without
register cid hub = (
  hub.next_token,
  record hub {
    calls = (cid, hub.next_token) ∷ without cid hub.calls;
    next_token = suc hub.next_token;
  },
)

abbrev pub fire : Option ℕ → ResponseHub → Bool × ResponseHub
fire none hub = (false, hub)
fire (some t) hub = (true, record hub { fired = t ∷ hub.fired })

unfoldable pub cancel : List ℕ → ResponseHub → Bool × ResponseHub
unfolding token_of
cancel cid hub = fire (token_of cid hub.calls) hub

unfoldable pub unregister : List ℕ → ResponseHub → ResponseHub
unfolding without
unregister cid hub = record hub { calls = without cid hub.calls }

-- `try_publish` replaces an empty payload by one byte.
abbrev pub placeholder : Bytes → Bytes
placeholder [] = 0 ∷ []
placeholder (b ∷ bs) = b ∷ bs

-- `CancellableCall`: the token that ends it, and the task that it guards.
pub record CancellableCall : Type 0 where
  pub request : RpcHeader
  pub token : ℕ
  pub task : Task

-- The guard unregisters the call when it is over, however it ends.
unfoldable pub drop_call : CancellableCall → ResponseHub → ResponseHub
unfolding unregister
drop_call call hub = unregister call.request.correlation_id hub

abbrev pub settle_call :
    CancellableCall → ResponseHub × Option Task → ResponseHub × Option CancellableCall
settle_call call (hub, none) = (drop_call call hub, none)
settle_call call (hub, some task) =
    if is_cancelled call.token hub.fired
    then (drop_call call hub, none)
    else (hub, some (record call { task = task }))

abbrev pub after_poll : ResponseHub × Bool → Option Task → ResponseHub × Option Task
after_poll (hub, true) next = (hub, next)
after_poll (hub, false) next = (hub, none)

module _ (bus : Bus) where
  -- The header of the next response; its sequence number is used up whether or not it arrives.
  unfoldable pub response_header : ResponseHub → EventKind → RpcHeader → RpcHeader
  unfolding response_from with_seq
  response_header hub kind request =
      with_seq (response_from request kind request.service_version (bus.clock hub.seq)) hub.seq

  unfoldable pub publish : EventKind → RpcHeader → Bytes → ResponseHub → ResponseHub × Bool
  unfolding response_header
  publish kind request payload hub =
      let next : ResponseHub = record hub { seq = (hub.seq + 1) % 2 ^ 64 } in
      if bus.delivers hub.seq
      then (
        record next {
          published = hub.published ++ (response_header hub kind request, placeholder payload) ∷ [];
        },
        true,
      )
      else (next, false)

  -- The samples of one poll, up to one that is not delivered.
  unfoldable pub publish_each :
      RpcHeader → List (EventKind × Bytes) → ResponseHub → ResponseHub × Bool
  unfolding publish
  publish_each request [] hub = (hub, true)
  publish_each request ((kind, payload) ∷ samples) hub =
      let (hub', delivered) = publish kind request payload hub in
      let rest = publish_each request samples hub' in if delivered then rest else (hub', false)

  -- One poll of a handler's task; `none` when it is ready.
  unfoldable pub poll_task : RpcHeader → Task → ResponseHub → ResponseHub × Option Task
  unfolding publish_each
  poll_task request (done samples) hub = after_poll (publish_each request samples hub) none
  poll_task request (yields samples next) hub =
      after_poll (publish_each request samples hub) (some next)

  -- `Future::poll`; `none` when the call is ready, and its guard is dropped.
  unfoldable pub poll_call : CancellableCall → ResponseHub → ResponseHub × Option CancellableCall
  unfolding poll_task drop_call
  poll_call call hub =
      let polled = settle_call call (poll_task call.request call.task hub) in
      if is_cancelled call.token hub.fired then (drop_call call hub, none) else polled
