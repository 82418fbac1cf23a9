-- ===== src/Service/Locator.antt =====
-- ice-rpc/src/locator.rs: the registry of a process. A map is a list, in the order in which its
-- iterator yields it; each operation is the one step that its lock makes of it. What a service's
-- `init` answers is a part of its entry.
pub mod Found
pub mod Lookup
pub mod Startup
use mathlib.Core.Logic.{ite}
use ice_rpc.Common.{
  ℕ, ◌+◌, ◌%◌, ◌^◌, ◌==◌, Bool, true, false, Option, none, some, List, [], ◌∷◌, ◌++◌, map, length,
  if◌then◌else◌,
}
use ice_rpc.Common.Text.{codes}
use ice_rpc.Common.Result.{Result, ok, err}
use ice_rpc.Rx.Event.{Text}
use ice_rpc.Transport.Registration.{ChannelRegistry, start_registered_channels}
use ice_rpc.Service.Order.{Service, order_of, numbered}

-- A shared instance: its dynamic type, and which one it is.
pub record Instance : Type 0 where
  pub type_id : ℕ
  pub address : ℕ

pub record ServiceEntry : Type 0 where
  pub instance_of : Instance
  pub init_ok : Bool
  pub dependencies : List Text

pub record ServiceLocator : Type 0 where
  pub entries : List (Text × ServiceEntry)
  pub lazy_cache : List (Text × Instance)
  -- Where the next proxy will be.
  pub next_address : ℕ
  -- The services whose `init` ran, and the channels of the process.
  pub initialized : List Text
  pub channels : ChannelRegistry

-- A type `T` that implements ServiceConsumer.
pub record Consumer : Type 0 where
  pub service_name : Text
  pub type_id : ℕ

abbrev pub downcast : ℕ → Instance → Option Instance
downcast type_id i = if i.type_id == type_id then some i else none

unfoldable pub service_count : ServiceLocator → ℕ
service_count l = length l.entries % 2 ^ 8

unfoldable pub service_names : ServiceLocator → List Text
service_names l = map (λ e. e.0) l.entries

module _ {V : Type 0} (dec : Discrete Text) where
  unfoldable pub find : Text → List (Text × V) → Option V
  find name [] = none
  find name ((k, v) ∷ es) = ite (dec k name) (some v) (find name es)

  unfoldable pub put : Text → V → List (Text × V) → List (Text × V)
  put name v [] = (name, v) ∷ []
  put name v ((k, w) ∷ es) =
      let rest = put name v es in ite (dec k name) ((k, v) ∷ es) ((k, w) ∷ rest)

  abbrev pub is_some : Option V → Bool
  is_some none = false
  is_some (some v) = true

module _ (dec : Discrete Text) where
  -- `HashMap::insert(...).is_some()`.
  unfoldable pub register : Text → ServiceEntry → ServiceLocator → Bool × ServiceLocator
  unfolding find put
  register name entry l =
      (is_some dec (find dec name l.entries), record l { entries = put dec name entry l.entries })

  -- The proxy that `consume_proxy` makes.
  abbrev pub proxy : Consumer → ServiceLocator → Instance
  proxy t l = record { type_id = t.type_id; address = l.next_address }

  -- `entry(name).or_insert_with(...)`: what is cached stays.
  abbrev pub or_insert :
      Option Instance → Text → Instance → List (Text × Instance) → List (Text × Instance)
  or_insert none name i cache = put dec name i cache
  or_insert (some old) name i cache = cache

  -- The slow path: the proxy is made, and cached unless another was in the meantime.
  unfoldable pub cache_proxy : Consumer → ServiceLocator → Option Instance × ServiceLocator
  unfolding find put
  cache_proxy t l = (
    some (proxy t l),
    record l {
      lazy_cache =
          or_insert (find dec t.service_name l.lazy_cache) t.service_name (proxy t l) l.lazy_cache;
      next_address = l.next_address + 1;
    },
  )

  abbrev pub from_cache :
      Option Instance → Consumer → ServiceLocator → Option Instance × ServiceLocator
  from_cache (some i) t l = (downcast t.type_id i, l)
  from_cache none t l = cache_proxy t l

  abbrev pub from_entries :
      Option ServiceEntry → Consumer → ServiceLocator → Option Instance × ServiceLocator
  from_entries (some e) t l = (downcast t.type_id e.instance_of, l)
  from_entries none t l = from_cache (find dec t.service_name l.lazy_cache) t l

  unfoldable pub get : Consumer → ServiceLocator → Option Instance × ServiceLocator
  unfolding cache_proxy find
  get t l = from_entries (find dec t.service_name l.entries) t l

  abbrev pub failed_text : Text → Text
  failed_text name = codes "service '" ++ name ++ codes "' failed to initialize"

  abbrev pub init_of : Option ServiceEntry → Bool
  init_of none = true
  init_of (some e) = e.init_ok

  -- The services are initialized one after the other, up to the first that fails.
  unfoldable pub init_each :
      List (Service Text) → ServiceLocator → Result (Unit {0}) Text × ServiceLocator
  unfolding find
  init_each [] l = (ok tt, l)
  init_each (s ∷ services) l =
      let l' : ServiceLocator = record l { initialized = l.initialized ++ s.name ∷ [] } in
      let rest = init_each services l' in
      if init_of (find dec s.name l.entries) then rest else (err (failed_text s.name), l')

  unfoldable pub snapshot : ServiceLocator → List (Service Text)
  unfolding numbered
  snapshot l = numbered 0 (map (λ e. e.0) l.entries) (map (λ e. e.1.dependencies) l.entries)

  abbrev pub started :
      Result (Unit {0}) Text × ServiceLocator → Result (Unit {0}) Text × ServiceLocator
  started (ok u, l) = (ok u, record l { channels = start_registered_channels l.channels })
  started (err e, l) = (err e, l)

  abbrev pub initialize_in :
      Option (List (Service Text))
      → ServiceLocator
      → Option (Result (Unit {0}) Text × ServiceLocator)
  initialize_in none l = none
  initialize_in (some order) l = some (started (init_each order l))

  -- `none` would be an order that does not come out.
  unfoldable pub initialize_all : ServiceLocator → Option (Result (Unit {0}) Text × ServiceLocator)
  unfolding init_each snapshot order_of start_registered_channels
  initialize_all l = initialize_in (order_of dec (snapshot l)) l
