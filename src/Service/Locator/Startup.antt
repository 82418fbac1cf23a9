-- ===== src/Service/Locator/Startup.antt =====
-- locator.rs: what `initialize_all` has done when it returns.
use mathlib.Core.List.{Perm}
use mathlib.Core.List.Perm
use ice_rpc.Common.Text.{codes}
use ice_rpc.Common.{none}
use ice_rpc.Transport.Registration.{start_registered_channels}
use ice_rpc.Common.{◌≡◌, Bool, true, false, some, List, [], ◌∷◌, ◌++◌, All, ◌⊎◌}
use ice_rpc.Common.Result.{Result, ok, err}
use ice_rpc.Rx.Event.{Text}
use ice_rpc.Service.Order.{Service, names_of}
use ice_rpc.Service.Locator.{ServiceLocator, ServiceEntry, find}

-- A service's name with its dependencies, as an entry has them.
abbrev pub wanted_by : Text × ServiceEntry → Text × List Text
wanted_by e = (e.0, e.1.dependencies)

abbrev pub wants : Service Text → Text × List Text
wants s = (s.name, s.deps)

module _ (dec : Discrete Text) where
  -- The service's entry is there, and its `init` answers this.
  abbrev pub Answers : ServiceLocator → Service Text → Bool → Type 0
  Answers l s b = (e : ServiceEntry) × (find dec s.name l.entries ≡ some e) × (e.init_ok ≡ b)

  abbrev pub Succeeds : ServiceLocator → Service Text → Type 0
  Succeeds l s = (find dec s.name l.entries ≡ none) ⊎ Answers l s true

  -- What the loop over this order returns and leaves.
  abbrev pub Initialized :
      List (Service Text) → ServiceLocator → Result (Unit {0}) Text × ServiceLocator → Type 0
  Initialized order l (r, l') =
      (All (Succeeds l) order
        × (r ≡ ok tt)
        × (l' ≡ record l { initialized = l.initialized ++ names_of order }))
      ⊎ ((front : List (Service Text)) × (s : Service Text) × (back : List (Service Text)) × (order
            ≡ front ++ s ∷ back)
          × All (Succeeds l) front
          × Answers l s false
          × (r ≡ err (codes "service '" ++ (s.name ++ codes "' failed to initialize")))
          × (l' ≡ record l { initialized = l.initialized ++ names_of (front ++ s ∷ []) }))

  -- What is returned, and what is left: the channels are started exactly if the loop ran through.
  abbrev pub Outcome :
      List (Service Text) → ServiceLocator → Result (Unit {0}) Text × ServiceLocator → Type 0
  Outcome order l (r, l') =
      (All (λ s. Answers l s true) order
        × (r ≡ ok tt)
        × (l' ≡ record l {
          initialized = l.initialized ++ names_of order;
          channels = start_registered_channels l.channels;
        }))
      ⊎ ((front : List (Service Text)) × (s : Service Text) × (back : List (Service Text)) × (order
            ≡ front ++ s ∷ back)
          × All (λ s. Answers l s true) front
          × Answers l s false
          × (r ≡ err (codes "service '" ++ (s.name ++ codes "' failed to initialize")))
          × (l' ≡ record l { initialized = l.initialized ++ names_of (front ++ s ∷ []) }))

  abbrev launched : ServiceLocator → ServiceLocator
  launched l = record l { channels = start_registered_channels l.channels }
