-- ===== src/Service/Order/Ranked.antt =====
-- locator.rs: without a cycle, every service comes behind all its registered dependencies.
use mathlib.Core.List.{Perm}
use ice_rpc.Common.{
  ℕ, zero, suc, ◌<◌, ◌≡◌, refl, ap, ◌∙◌, arith, Bool, true, false, not, ◌||◌, ◌&&◌, some, List, [],
  ◌∷◌, ◌++◌, length, All, append-nil, subst, ◌⊎◌, inl, inr,
}
use mathlib.Core.Logic.{ite}
use ice_rpc.Service.Order.{Service, contains, is_ready, names_of, order_of}
use ice_rpc.Service.Order.Behind.{InOrder, ReadyInOrder-InOrder}
use ice_rpc.Service.Order.Sound.{Stuck, IsOrder, IsKnown, done_after, passes-IsOrder}

module _ {Name : Type 0} (dec : Discrete Name) (registered : List Name) (rank : Name → ℕ) where
  -- The registered dependencies of a service have a lower rank.
  abbrev pub IsRanked : Service Name → Type 0
  IsRanked s = All (λ d. contains dec d registered ≡ true → rank d < rank s.name) s.deps

  -- A dependency that keeps a service from coming.
  waits_for :
      (done : List Name) (bound : ℕ) (deps : List Name)
      → All (λ d. contains dec d registered ≡ true → rank d < bound) deps
      → is_ready dec registered done deps ≡ false
      → (d : Name) × (contains dec d done ≡ false)
        × (contains dec d registered ≡ true)
        × (rank d < bound)
  unfolding is_ready
  waits_for done bound [] r h = cc
  waits_for done bound (d ∷ deps) (low, r) h =
      go (contains dec d done) (contains dec d registered) refl refl (waits_for done bound deps r) h
    where
      go :
          (b c : Bool)
          → contains dec d done ≡ b
          → contains dec d registered ≡ c
          → (is_ready dec registered done deps ≡ false
              → (d : Name) × (contains dec d done ≡ false)
                × (contains dec d registered ≡ true)
                × (rank d < bound))
          → ((b || not c) && is_ready dec registered done deps) ≡ false
          → (d : Name) × (contains dec d done ≡ false)
            × (contains dec d registered ≡ true)
            × (rank d < bound)
      go true c e f rec g = rec g
      go false true e f rec g = (d, e, f, low f)
      go false false e f rec g = rec g

  found :
      (P : Service Name → Type 0) (name : Name) (services : List (Service Name))
      → All P services
      → contains dec name (names_of services) ≡ true
      → (s : Service Name) × (s.name ≡ name) × P s
  found P name [] a h = cc
  found P name (s ∷ services) (p, a) h = go (dec s.name name) (found P name services a) h
    where
      go :
          (x : Dec (Path Name s.name name))
          → (contains dec name (names_of services) ≡ true
              → (s : Service Name) × (s.name ≡ name) × P s)
          → ite x true (contains dec name (names_of services)) ≡ true
          → (s : Service Name) × (s.name ≡ name) × P s
      go (yes e) rec g = (s, e, p)
      go (no ne) rec g = rec g

  -- Where every registered name is done or among these, and none of these can come, there are none.
  none_waits :
      (done : List Name) (services : List (Service Name))
      → All (λ s. IsRanked s × (is_ready dec registered done s.deps ≡ false)) services
      → ((x : Name)
          → contains dec x registered ≡ true
          → (contains dec x done ≡ true) ⊎ (contains dec x (names_of services) ≡ true))
      → (bound : ℕ) (name : Name) → rank name < bound
      → contains dec name (names_of services) ≡ true
      → ⊥
  none_waits done services a covered zero name low h = absurd (omega arith)
  none_waits done services a covered (suc bound) name low h =
      let (s, same, (ranked, waits)) = found _ name services a h in
      let (d, undone, known, lower) = waits_for done (rank s.name) s.deps ranked waits in
      let same_rank : rank s.name ≡ rank name = ap rank same in
      elim (covered d known) [
        | inl is_done ↦ cc
        | inr remains ↦ none_waits done services a covered bound d (omega arith) remains
      ]

module _ {Name : Type 0} (dec : Discrete Name) where
  none_cyclic :
      (registered : List Name) (rank : Name → ℕ) (done : List Name) (cyclic : List (Service Name))
      → Stuck dec registered done cyclic
      → All (IsRanked dec registered rank) cyclic
      → ((name : Name) → contains dec name registered ≡ true → IsKnown dec name done cyclic)
      → cyclic ≡ []
  none_cyclic registered rank done [] waits ranked known = refl
  none_cyclic registered rank done (s ∷ cyclic) waits ranked known = absurd (
      none_waits dec registered rank done (s ∷ cyclic) (both (s ∷ cyclic) ranked waits) known
        (suc (rank s.name)) s.name (omega arith) (ground arith))
    where
      both :
          (services : List (Service Name))
          → All (IsRanked dec registered rank) services
          → Stuck dec registered done services
          → All
              (λ s. IsRanked dec registered rank s × (is_ready dec registered done s.deps ≡ false))
              services
      both [] r w = tt
      both (s ∷ services) (r, rs) (w, ws) = ((r, w), both services rs ws)

  -- The order always comes out. It holds each of the services once: first some in an order in which
  -- each comes behind all its registered dependencies, and then, as they were, those of which each
  -- waits for a registered dependency that never comes.
  pub order_of-IsOrder :
      (services : List (Service Name))
      → IsOrder dec (names_of services) (λ s. Unit) [] services (order_of dec services)
  unfolding order_of
  order_of-IsOrder services =
      passes-IsOrder dec (names_of services) (λ s. Unit) (suc (length services)) services []
        (omega arith)

  -- Where a rank falls from each service to its registered dependencies, so that there is no cycle,
  -- the order comes out, holds each service once, and puts each behind all its registered
  -- dependencies; a dependency that is not registered never holds a service back.
  pub order_of-InOrder :
      (rank : Name → ℕ) (services : List (Service Name))
      → All (IsRanked dec (names_of services) rank) services
      → (order : List (Service Name)) × (order_of dec services ≡ some order)
        × Perm order services
        × InOrder (names_of services) [] order
  unfolding order_of
  order_of-InOrder rank services ranked =
      let (front, cyclic, eq, perm, in_order, stuck, known, all) =
        passes-IsOrder dec (names_of services) (IsRanked dec (names_of services) rank)
          (suc (length services)) services [] (omega arith) in
      let none_left : cyclic ≡ [] =
        none_cyclic (names_of services) rank (done_after [] front) cyclic stuck (all ranked)
          (λ name h. known name (inr h)) in
      let whole : front ++ cyclic ≡ front = ap (λ c. front ++ c) none_left ∙ append-nil front in
      (
        front,
        eq ∙ ap some whole,
        subst (λ l. Perm l services) whole perm,
        ReadyInOrder-InOrder dec (names_of services) [] front in_order,
      )
