-- ===== src/Service/Locator/Found.antt =====
-- locator.rs: every service of the order has its entry.
use mathlib.Core.Bool.{Bool-set}
use mathlib.Core.Logic.{∥∥₁_elim}
use mathlib.Core.List.{Perm, Permᴰ}
use ice_rpc.Common.{
  ℕ, suc, ◌≡◌, refl, ap, ◌∙◌, arith, Bool, true, false, ◌&&◌, List, [], ◌∷◌, ◌++◌, map,
}
use ice_rpc.Rx.Event.{Text}
use ice_rpc.Service.Order.{Service, numbered}
use ice_rpc.Service.Locator.{ServiceEntry, ServiceLocator, find, is_some, snapshot}

module _ {A : Type 0} (f : A → Bool) where
  abbrev pub all_of : List A → Bool
  all_of [] = true
  all_of (x ∷ xs) = f x && all_of xs

  swapped : (a b c : Bool) → (a && (b && c)) ≡ (b && (a && c))
  swapped true b c = refl
  swapped false true c = refl
  swapped false false c = refl

  all_of_arranged : {xs ys : List A} → Permᴰ xs ys → all_of xs ≡ all_of ys
  all_of_arranged Permᴰ.nil = refl
  all_of_arranged (Permᴰ.cons e p) = cc (ap f e, all_of_arranged p)
  all_of_arranged (Permᴰ.swap {a = a} {b = b} {l = l} e g) =
      swapped (f a) (f b) (all_of l) ∙ cc (ap f e, ap f g)
  all_of_arranged (Permᴰ.trans p q) = all_of_arranged p ∙ all_of_arranged q

  pub Perm-all_of : {xs ys : List A} → Perm xs ys → all_of xs ≡ all_of ys
  Perm-all_of {xs} {ys} p = ∥∥₁_elim p (Bool-set (all_of xs) (all_of ys)) all_of_arranged

  pub all_of-front : (xs ys : List A) → all_of (xs ++ ys) ≡ true → all_of xs ≡ true
  all_of-front [] ys h = refl
  all_of-front (x ∷ xs) ys h = go (f x) h (all_of-front xs ys)
    where
      go :
          (b : Bool)
          → (b && all_of (xs ++ ys)) ≡ true
          → (all_of (xs ++ ys) ≡ true → all_of xs ≡ true)
          → (b && all_of xs) ≡ true
      go true g rec = rec g
      go false g rec = cc

all_of_mono :
    {A : Type 0} (f g : A → Bool)
    → ((x : A) → f x ≡ true → g x ≡ true)
    → (xs : List A) → all_of f xs ≡ true
    → all_of g xs ≡ true
all_of_mono f g h [] a = refl
all_of_mono f g h (x ∷ xs) a = go (f x) refl a (all_of_mono f g h xs)
  where
    go :
        (b : Bool)
        → f x ≡ b
        → (b && all_of f xs) ≡ true
        → (all_of f xs ≡ true → all_of g xs ≡ true)
        → (g x && all_of g xs) ≡ true
    go true e a rec = cc (h x e, rec a)
    go false e a rec = cc

module _ (dec : Discrete Text) where
  -- The service's name has an entry.
  abbrev pub is_found : List (Text × ServiceEntry) → Service Text → Bool
  is_found es s = is_some dec (find dec s.name es)

  find_self :
      (e : Text × ServiceEntry) (es : List (Text × ServiceEntry))
      → is_some dec (find dec e.0 (e ∷ es)) ≡ true
  unfolding find
  find_self e es = ground arith

  find_later :
      (e : Text × ServiceEntry) (es : List (Text × ServiceEntry)) (name : Text)
      → is_some dec (find dec name es) ≡ true
      → is_some dec (find dec name (e ∷ es)) ≡ true
  unfolding find
  find_later e es name h = ground arith

  numbered-found :
      (i : ℕ) (es : List (Text × ServiceEntry))
      → all_of (is_found es) (numbered i (map (λ e. e.0) es) (map (λ e. e.1.dependencies) es))
        ≡ true
  unfolding numbered
  numbered-found i [] = refl
  numbered-found i (e ∷ es) =
      let later =
        all_of_mono (is_found es) (is_found (e ∷ es)) (λ s h. find_later e es s.name h)
          (numbered (suc i) (map (λ e. e.0) es) (map (λ e. e.1.dependencies) es))
          (numbered-found (suc i) es) in
      cc (find_self e es, later)

  pub order-found :
      (l : ServiceLocator) (order : List (Service Text))
      → Perm order (snapshot dec l)
      → all_of (is_found l.entries) order ≡ true
  unfolding snapshot
  order-found l order p = Perm-all_of (is_found l.entries) p ∙ numbered-found 0 l.entries
