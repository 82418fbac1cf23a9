-- ===== src/Service/Order/Sound.antt =====
-- locator.rs: the order holds every service once, each behind its dependencies, up to a cycle.
use mathlib.Core.List.{Perm, perm_middle}
use mathlib.Core.List.Perm
use ice_rpc.Common.{
  ℕ, zero, suc, ◌+◌, ◌<◌, ◌≡◌, refl, ap, sym, ◌∙◌, arith, Bool, true, false, Option, some, List, [],
  ◌∷◌, ◌++◌, length, All, if◌then◌else◌, append_assoc, subst, ◌⊎◌, inl, inr,
}
use mathlib.Core.Logic.{ite}
use ice_rpc.Service.Order.{
  contains, Service, Pass, is_empty, is_ready, pass, passes, behind, names_of,
}

module _ {Name : Type 0} where
  -- The names that are done when these services are.
  abbrev pub done_after : List Name → List (Service Name) → List Name
  done_after done [] = done
  done_after done (s ∷ services) = done_after (s.name ∷ done) services

  length-not_empty : (l : List (Service Name)) → is_empty l ≡ false → 0 < length l
  length-not_empty [] h = cc
  length-not_empty (s ∷ l) h = omega arith

  pub done_after-append :
      (done : List Name) (front back : List (Service Name))
      → done_after done (front ++ back) ≡ done_after (done_after done front) back
  done_after-append done [] back = refl
  done_after-append done (s ∷ front) back = done_after-append (s.name ∷ done) front back

module _ {Name : Type 0} (dec : Discrete Name) where
  -- The service of this name is done or among these.
  abbrev pub IsKnown : Name → List Name → List (Service Name) → Type 0
  IsKnown name done services =
      (contains dec name done ≡ true) ⊎ (contains dec name (names_of services) ≡ true)

  IsKnown-left :
      (name : Name) (done : List Name) (s : Service Name) (left : List (Service Name))
      → IsKnown name done left
      → IsKnown name done (s ∷ left)
  IsKnown-left name done s left (inl h) = inl h
  IsKnown-left name done s left (inr h) = inr (ground arith)

  IsKnown-done :
      (name : Name) (done : List Name) (s : Service Name) (services : List (Service Name))
      → IsKnown name done (s ∷ services)
      → IsKnown name (s.name ∷ done) services
  IsKnown-done name done s services (inl h) = inl (ground arith)
  IsKnown-done name done s services (inr h) = go (dec s.name name) h
    where
      go :
          (x : Dec (Path Name s.name name))
          → ite x true (contains dec name (names_of services)) ≡ true
          → (ite x true (contains dec name done) ≡ true)
            ⊎ (contains dec name (names_of services) ≡ true)
      go (yes e) g = inl refl
      go (no ne) g = inr g

  IsKnown-kept :
      (name : Name) (done done' : List Name) (s : Service Name)
      (services left : List (Service Name))
      → (IsKnown name done services → IsKnown name done' left)
      → IsKnown name done (s ∷ services)
      → IsKnown name done' (s ∷ left)
  IsKnown-kept name done done' s services left f (inl h) =
      IsKnown-left name done' s left (f (inl h))
  IsKnown-kept name done done' s services left f (inr h) = go (dec s.name name) h
    where
      go :
          (x : Dec (Path Name s.name name))
          → ite x true (contains dec name (names_of services)) ≡ true
          → (contains dec name done' ≡ true)
            ⊎ (ite x true (contains dec name (names_of left)) ≡ true)
      go (yes e) g = inr refl
      go (no ne) g = f (inr g)

module _ {Name : Type 0} (dec : Discrete Name) (registered : List Name) where
  -- Each service comes when its registered dependencies are done.
  abbrev pub ReadyInOrder : List Name → List (Service Name) → Type 0
  ReadyInOrder done [] = Unit
  ReadyInOrder done (s ∷ services) =
      (is_ready dec registered done s.deps ≡ true) × ReadyInOrder (s.name ∷ done) services

  -- None of these can come: each waits for a registered dependency that is not done.
  abbrev pub Stuck : List Name → List (Service Name) → Type 0
  Stuck done services = All (λ s. is_ready dec registered done s.deps ≡ false) services

  ReadyInOrder-append :
      (done : List Name) (front back : List (Service Name))
      → ReadyInOrder done front
      → ReadyInOrder (done_after done front) back
      → ReadyInOrder done (front ++ back)
  ReadyInOrder-append done [] back f b = b
  ReadyInOrder-append done (s ∷ front) back (ready, f) b =
      (ready, ReadyInOrder-append (s.name ∷ done) front back f b)

-- `P` is what the services all have.
module _ {Name : Type 0} (dec : Discrete Name) (registered : List Name)
    (P : Service Name → Type 0) where
  -- What a pass makes of the services.
  abbrev Passed : List (Service Name) → List Name → Pass Name → Type 0
  Passed services done p =
      ReadyInOrder dec registered done p.ordered
      × (p.done ≡ done_after done p.ordered)
      × Perm (p.ordered ++ p.left) services
      × (length p.ordered + length p.left ≡ length services)
      × ((name : Name) → IsKnown dec name done services → IsKnown dec name p.done p.left)
      × (All P services → All P p.left)
      × (is_empty p.ordered ≡ true → Stuck dec registered done services × (p.left ≡ services))

  pass-Passed :
      (services : List (Service Name)) (done : List Name)
      → Passed services done (pass dec registered services done)
  unfolding pass
  pass-Passed [] done = (tt, refl, Perm.refl [], refl, λ name k. k, λ a. a, λ e. (tt, refl))
  pass-Passed (s ∷ services) done =
      go (is_ready dec registered done s.deps) refl (pass-Passed services (s.name ∷ done))
        (pass-Passed services done)
    where
      taken : Pass Name
      taken = pass dec registered services (s.name ∷ done)

      kept : Pass Name
      kept = pass dec registered services done

      go :
          (ready : Bool)
          → is_ready dec registered done s.deps ≡ ready
          → Passed services (s.name ∷ done) taken
          → Passed services done kept
          → Passed (s ∷ services) done (
              if ready
              then record taken { ordered = s ∷ taken.ordered }
              else record kept { left = s ∷ kept.left })
      go true e (o, d, perm, len, known, all, stuck) k = (
        (e, o),
        d,
        Perm.cons s perm,
        omega arith,
        λ name n. known name (IsKnown-done dec name done s services n),
        λ a. all a.1,
        λ h. cc,
      )
      go false e t (o, d, perm, len, known, all, stuck) = (
        o,
        d,
        Perm.trans (perm_middle kept.ordered kept.left) (Perm.cons s perm),
        omega arith,
        λ name n. IsKnown-kept dec name done kept.done s services kept.left (known name) n,
        λ a. (a.0, all a.1),
        λ h. let (none_ready, same) = stuck h in ((e, none_ready), ap (◌∷◌ s) same),
      )

  -- An order of these services, and what of it is taken in spite of a cycle.
  abbrev pub IsOrder : List Name → List (Service Name) → Option (List (Service Name)) → Type 0
  IsOrder done services order =
      (front : List (Service Name)) × (cyclic : List (Service Name)) × (order
        ≡ some (front ++ cyclic))
      × Perm (front ++ cyclic) services
      × ReadyInOrder dec registered done front
      × Stuck dec registered (done_after done front) cyclic
      × ((name : Name)
          → IsKnown dec name done services
          → IsKnown dec name (done_after done front) cyclic)
      × (All P services → All P cyclic)

  pub passes-IsOrder :
      (fuel : ℕ) (services : List (Service Name)) (done : List Name)
      → length services < fuel
      → IsOrder done services (passes dec fuel registered services done)
  unfolding passes
  passes-IsOrder zero services done h = absurd (omega arith)
  passes-IsOrder (suc fuel) [] done h = ([], [], refl, Perm.refl [], tt, tt, λ name k. k, λ a. a)
  passes-IsOrder (suc fuel) (s ∷ services) done h =
      let passed = pass-Passed (s ∷ services) done in
      go (pass dec registered (s ∷ services) done) passed (passes-IsOrder fuel _ _)
    where
      go :
          (p : Pass Name)
          → Passed (s ∷ services) done p
          → (length p.left < fuel
              → IsOrder p.done p.left (passes dec fuel registered p.left p.done))
          → IsOrder done (s ∷ services) (
              if is_empty p.ordered
              then some p.left
              else behind p.ordered (passes dec fuel registered p.left p.done))
      go p (o, d, perm, len, known, all, stuck) rec = split (is_empty p.ordered) refl
        where
          split :
              (b : Bool)
              → is_empty p.ordered ≡ b
              → IsOrder done (s ∷ services) (
                  if b
                  then some p.left
                  else behind p.ordered (passes dec fuel registered p.left p.done))
          split true e =
              let (none_ready, same) = stuck e in
              (
                [],
                p.left,
                refl,
                subst (Perm p.left) same (Perm.refl p.left),
                tt,
                subst (Stuck dec registered done) (sym same) none_ready,
                λ name k. subst (IsKnown dec name done) (sym same) k,
                λ a. subst (All P) (sym same) a,
              )
          split false e =
              let (front, cyclic, eq, perm', o', st, known', all') =
                rec (let some_taken = length-not_empty p.ordered e in omega arith) in
              (
                p.ordered ++ front,
                cyclic,
                ap (behind p.ordered) eq ∙ ap some (sym (append_assoc p.ordered front cyclic)),
                subst (λ l. Perm l (s ∷ services)) (sym (append_assoc p.ordered front cyclic))
                    (Perm.trans (Perm.append_left p.ordered perm') perm),
                ReadyInOrder-append dec registered done p.ordered front o
                    (subst (λ x. ReadyInOrder dec registered x front) d o'),
                subst (λ x. Stuck dec registered x cyclic)
                    (ap (λ x. done_after x front) d ∙ sym (done_after-append done p.ordered front))
                    st,
                λ name k.
                    subst (λ x. IsKnown dec name x cyclic)
                      (ap (λ x. done_after x front) d
                        ∙ sym (done_after-append done p.ordered front))
                      (known' name (known name k)),
                λ a. all' (all a),
              )
