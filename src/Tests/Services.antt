-- ===== src/Tests/Services.antt =====
-- Runs of the registry of a process, of a shutdown, and of the threads of a channel.
use native.Mathlib.Decide.{ℕ_discrete}
use mathlib.Core.List.{List-discrete, Perm}
use ice_rpc.Common.{
  ℕ, ◌≡◌, arith, Bool, true, false, some, List, [], ◌∷◌, ◌++◌, length, if◌then◌else◌,
}
use ice_rpc.Common.Result.{Result}
use ice_rpc.Service.Order.{Service, order_of, names_of}
use ice_rpc.Service.Order.Behind.{InOrder}
use ice_rpc.Service.Order.Ranked.{order_of-InOrder}
use ice_rpc.Service.Locator.{ServiceLocator, ServiceEntry, Consumer, find, register, get, downcast}
use ice_rpc.Service.Locator.Lookup.{register-get}
use ice_rpc.Service.Shutdown.Awaited.{
  Call, task, thread, join, run, awaited_in, joined_in, join_all-awaits,
}

abbrev same_text : Discrete (List ℕ)
same_text = List-discrete ℕ_discrete

abbrev disk : List ℕ
disk = 1 ∷ []

abbrev cache : List ℕ
cache = 2 ∷ []

abbrev web : List ℕ
web = 3 ∷ []

-- The web service needs the cache and one that is not registered; the cache needs the store.
abbrev three_services : List (Service (List ℕ))
three_services =
    record { index = 0; name = web; deps = cache ∷ (9 ∷ []) ∷ [] }
    ∷ record { index = 1; name = disk; deps = [] }
    ∷ record { index = 2; name = cache; deps = disk ∷ [] }
    ∷ []

abbrev rank : List ℕ → ℕ
rank [] = 0
rank (n ∷ ns) = n

order_of-InOrder_example :
    (order : List (Service (List ℕ))) × (order_of same_text three_services ≡ some order)
    × Perm order three_services
    × InOrder (names_of three_services) [] order
unfolding ℕ_discrete
order_of-InOrder_example =
    order_of-InOrder same_text rank three_services
      ((λ h. omega arith, (λ h. ground arith, tt)), (tt, ((λ h. omega arith, tt), tt)))

abbrev entry_of : ℕ → Bool → List (List ℕ) → ServiceEntry
entry_of n ok_to_go deps = record {
  instance_of = record { type_id = n; address = n };
  init_ok = ok_to_go;
  dependencies = deps;
}

-- The cache fails to initialize.
abbrev machine : ServiceLocator
machine = record {
  entries =
      (web, entry_of 3 true (cache ∷ []))
      ∷ (disk, entry_of 1 true [])
      ∷ (cache, entry_of 2 false (disk ∷ []))
      ∷ [];
  lazy_cache = [];
  next_address = 100;
  initialized = [];
  channels = record { sealed = false; pending = []; spawned = [] };
}

abbrev billing : Consumer
billing = record { service_name = 7 ∷ []; type_id = 7 }

register-get_example :
    let (replaced, l') = register same_text (7 ∷ []) (entry_of 7 true []) machine in
    (get same_text billing l' ≡ (downcast 7 (record { type_id = 7; address = 7 }), l'))
    × (length l'.entries ≡ (if replaced then 3 else 4))
    × (find same_text disk l'.entries ≡ find same_text disk machine.entries)
register-get_example =
    register-get same_text billing (entry_of 7 true []) disk machine (λ e. ground arith)

abbrev calls : List Call
calls = task 1 ∷ thread 2 ∷ join ∷ task 3 ∷ []

join_all-awaits_example :
    let (log, r) = run (calls ++ join ∷ []) ([], record { handles = []; threads = [] }) in
    (awaited_in log ≡ 1 ∷ 3 ∷ [])
    × (joined_in log ≡ 2 ∷ [])
    × (r ≡ record { handles = []; threads = [] })
join_all-awaits_example = join_all-awaits calls
