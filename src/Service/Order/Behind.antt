-- ===== src/Service/Order/Behind.antt =====
-- locator.rs: what it is to come behind a dependency, said by membership alone.
use mathlib.Core.Logic.{ite}
use ice_rpc.Common.{
  ◌≡◌, refl, Bool, true, false, not, ◌||◌, ◌&&◌, List, [], ◌∷◌, All, ◌⊎◌, inl, inr,
}
use ice_rpc.Service.Order.{Service, contains, is_ready}
use ice_rpc.Service.Order.Sound.{ReadyInOrder}

module _ {Name : Type 0} where
  abbrev pub IsIn : Name → List Name → Type 0
  IsIn name [] = ⊥
  IsIn name (x ∷ xs) = (x ≡ name) ⊎ IsIn name xs

  -- Each service stands behind those of its dependencies that are registered; `done` is what stands
  -- before the list.
  abbrev pub InOrder : List Name → List Name → List (Service Name) → Type 0
  InOrder registered done [] = Unit
  InOrder registered done (s ∷ services) =
      All (λ d. IsIn d done ⊎ (¬ (IsIn d registered))) s.deps
      × InOrder registered (s.name ∷ done) services

module _ {Name : Type 0} (dec : Discrete Name) where
  contains-IsIn : (name : Name) (xs : List Name) → contains dec name xs ≡ true → IsIn name xs
  contains-IsIn name [] h = cc
  contains-IsIn name (x ∷ xs) h = go (contains-IsIn name xs) (dec x name) h
    where
      go :
          (contains dec name xs ≡ true → IsIn name xs)
          → (d : Dec (Path Name x name)) → ite d true (contains dec name xs) ≡ true
          → (x ≡ name) ⊎ IsIn name xs
      go rec (yes e) g = inl e
      go rec (no ne) g = inr (rec g)

  not_contains-IsIn :
      (name : Name) (xs : List Name) → contains dec name xs ≡ false → ¬ (IsIn name xs)
  not_contains-IsIn name [] h m = m
  not_contains-IsIn name (x ∷ xs) h m = go (not_contains-IsIn name xs) (dec x name) h m
    where
      go :
          (contains dec name xs ≡ false → ¬ (IsIn name xs))
          → (d : Dec (Path Name x name)) → ite d true (contains dec name xs) ≡ false
          → ¬ ((x ≡ name) ⊎ IsIn name xs)
      go rec (yes e) g m = cc
      go rec (no ne) g (inl e) = ne e
      go rec (no ne) g (inr m) = rec g m

  is_ready-IsIn :
      (registered done deps : List Name)
      → is_ready dec registered done deps ≡ true
      → All (λ d. IsIn d done ⊎ (¬ (IsIn d registered))) deps
  unfolding is_ready
  is_ready-IsIn registered done [] h = tt
  is_ready-IsIn registered done (d ∷ deps) h =
      go (contains dec d done) (contains dec d registered) refl refl h
        (is_ready-IsIn registered done deps)
    where
      go :
          (b c : Bool)
          → contains dec d done ≡ b
          → contains dec d registered ≡ c
          → ((b || not c) && is_ready dec registered done deps) ≡ true
          → (is_ready dec registered done deps ≡ true
              → All (λ d. IsIn d done ⊎ (¬ (IsIn d registered))) deps)
          → (IsIn d done ⊎ (¬ (IsIn d registered)))
            × All (λ d. IsIn d done ⊎ (¬ (IsIn d registered))) deps
      go true c p q r rec = (inl (contains-IsIn d done p), rec r)
      go false false p q r rec = (inr (not_contains-IsIn d registered q), rec r)
      go false true p q r rec = cc

  pub ReadyInOrder-InOrder :
      (registered done : List Name) (services : List (Service Name))
      → ReadyInOrder dec registered done services
      → InOrder registered done services
  ReadyInOrder-InOrder registered done [] h = tt
  ReadyInOrder-InOrder registered done (s ∷ services) (ready, rest) = (
    is_ready-IsIn registered done s.deps ready,
    ReadyInOrder-InOrder registered (s.name ∷ done) services rest,
  )
