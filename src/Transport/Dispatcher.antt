-- ===== src/Transport/Dispatcher.antt =====
-- ice-rpc/src/transport/bridge.rs: the method table of one service, and the tasks that it starts.
use ice_rpc.Common.{
  ℕ, ◌≡◌, refl, arith, Bool, true, false, not, Option, none, some, List, [], ◌∷◌, ◌==◌,
  if◌then◌else◌,
}
use ice_rpc.Wire.Kind.{EventKind}
use ice_rpc.Wire.Header.{RpcHeader, ServiceRef}
use ice_rpc.Transport.Codec.{Bytes}

-- What a handler does, poll by poll: the samples that one poll emits, and whether it yields behind
-- them. A task whose sample is not delivered ends, as the response loop does.
pub data Task : Type 0 where
  done : List (EventKind × Bytes) → Task
  yields : List (EventKind × Bytes) → Task → Task

-- What a handler does when it is called: the samples that it emits at once, up to one that is not
-- delivered, as `reject_undecodable` emits one, and the task that it hands back with the emitter.
pub record Handled : Type 0 where
  pub emitted : List (EventKind × Bytes)
  pub task : Task

pub record MethodEntry : Type 0 where
  pub handler : RpcHeader → Bytes → Handled
  pub oneway : Bool

pub record DispatchedRequest : Type 0 where
  pub task : Task
  pub expects_response : Bool

pub record ServiceDispatcher : Type 0 where
  pub service : ServiceRef
  pub handlers : List (ℕ × MethodEntry)

-- A map with `u32` keys.
module _ {ℓ} {V : Type ℓ} where
  abbrev pub get : ℕ → List (ℕ × V) → Option V
  get k [] = none
  get k ((j, v) ∷ m) = if j == k then some v else get k m

  abbrev pub insert : ℕ → V → List (ℕ × V) → List (ℕ × V)
  insert key value [] = (key, value) ∷ []
  insert key value (entry ∷ table) =
      let rest = insert key value table in
      if entry.0 == key then (entry.0, value) ∷ table else entry ∷ rest

  pub get-insert :
      (key asked : ℕ) (value : V) (table : List (ℕ × V))
      → get asked (insert key value table) ≡ (if key == asked then some value else get asked table)
  get-insert key asked value [] = refl
  get-insert key asked value ((k, v) ∷ table) = ground (arith, get-insert key asked value table)

unfoldable pub new : ServiceRef → ServiceDispatcher
new service = record { service = service; handlers = [] }

unfoldable pub method : ℕ → (RpcHeader → Bytes → Handled) → ServiceDispatcher → ServiceDispatcher
method id handler d = record d {
  handlers = insert id (record { handler = handler; oneway = false }) d.handlers;
}

unfoldable pub oneway_method :
    ℕ → (RpcHeader → Bytes → Handled) → ServiceDispatcher → ServiceDispatcher
oneway_method id handler d = record d {
  handlers = insert id (record { handler = handler; oneway = true }) d.handlers;
}

-- The emitter sends samples into a state of its own.
module _ {ℓ} {S : Type ℓ} (emit : List (EventKind × Bytes) → S → S) where
  abbrev pub start_handled : Handled → Bool → S → S × Option DispatchedRequest
  start_handled handled expects_response s = (
    emit handled.emitted s,
    some (record { task = handled.task; expects_response = expects_response }),
  )

  abbrev pub start : Option MethodEntry → RpcHeader → Bytes → S → S × Option DispatchedRequest
  start none header payload s = (s, none)
  start (some entry) header payload s =
      start_handled (entry.handler header payload) (not entry.oneway) s

  unfoldable pub dispatch :
      ServiceDispatcher → ℕ → RpcHeader → Bytes → S → S × Option DispatchedRequest
  dispatch d method_id header payload s = start (get method_id d.handlers) header payload s
