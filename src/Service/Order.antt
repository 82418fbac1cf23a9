-- ===== src/Service/Order.antt =====
-- ice-rpc/src/locator.rs, `topological_order`: in which order services are initialized. A name is any
-- type with decidable equality; an index of the source stands with its name and its dependencies.
pub mod Behind
pub mod Ranked
pub mod Sound
use ice_rpc.Common.{
  ℕ, zero, suc, Bool, true, false, not, ◌&&◌, ◌||◌, Option, none, some, List, [], ◌∷◌, ◌++◌, map,
  length, if◌then◌else◌,
}
use mathlib.Core.Logic.{ite}
use mathlib.Core.Option

module _ (Name : Type 0) where
  pub record Service : Type 0 where
    pub index : ℕ
    pub name : Name
    pub deps : List Name

  -- What one pass over the services that remain finds ready, what it leaves, and what is done then.
  pub record Pass : Type 0 where
    pub ordered : List Service
    pub left : List Service
    pub done : List Name

module _ {Name : Type 0} where
  -- `0..names.len()`, with what the two slices hold there.
  unfoldable pub numbered : ℕ → List Name → List (List Name) → List (Service Name)
  numbered i [] deps = []
  numbered i (name ∷ names) [] = []
  numbered i (name ∷ names) (d ∷ deps) =
      record { index = i; name = name; deps = d } ∷ numbered (suc i) names deps

  abbrev pub names_of : List (Service Name) → List Name
  names_of services = map (λ s. s.name) services

  abbrev pub indices_of : List (Service Name) → List ℕ
  indices_of services = map (λ s. s.index) services

  abbrev pub is_empty : List (Service Name) → Bool
  is_empty [] = true
  is_empty (x ∷ xs) = false

  abbrev pub behind :
      List (Service Name) → Option (List (Service Name)) → Option (List (Service Name))
  behind front none = none
  behind front (some back) = some (front ++ back)

module _ {Name : Type 0} (dec : Discrete Name) where
  -- `HashSet::contains`.
  abbrev pub contains : Name → List Name → Bool
  contains name [] = false
  contains name (x ∷ xs) = ite (dec x name) true (contains name xs)

  -- Each dependency is done, or is not registered in this process.
  unfoldable pub is_ready : List Name → List Name → List Name → Bool
  is_ready registered done [] = true
  is_ready registered done (dep ∷ deps) =
      (contains dep done || not (contains dep registered)) && is_ready registered done deps

  abbrev add_ordered : Service Name → Pass Name → Pass Name
  add_ordered s p = record p { ordered = s ∷ p.ordered }

  abbrev add_left : Service Name → Pass Name → Pass Name
  add_left s p = record p { left = s ∷ p.left }

  unfoldable pub pass : List Name → List (Service Name) → List Name → Pass Name
  pass registered [] done = record { ordered = []; left = []; done = done }
  pass registered (s ∷ services) done =
      let taken = add_ordered s (pass registered services (s.name ∷ done)) in
      let kept = add_left s (pass registered services done) in
      if is_ready registered done s.deps then taken else kept

  -- The passes until nothing remains; a pass without progress takes what is left as it stands.
  unfoldable pub passes :
      ℕ → List Name → List (Service Name) → List Name → Option (List (Service Name))
  passes zero registered services done = none
  passes (suc fuel) registered [] done = some []
  passes (suc fuel) registered (s ∷ services) done =
      let p : Pass Name = pass registered (s ∷ services) done in
      let rest = behind p.ordered (passes fuel registered p.left p.done) in
      if is_empty p.ordered then some p.left else rest

  -- One pass more than there are services is enough.
  unfoldable pub order_of : List (Service Name) → Option (List (Service Name))
  unfolding passes
  order_of services = passes (suc (length services)) (names_of services) services []

  unfoldable pub topological_order : List Name → List (List Name) → Option (List ℕ)
  unfolding order_of numbered
  topological_order names deps = Option.map indices_of (order_of (numbered 0 names deps))
