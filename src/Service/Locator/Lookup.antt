-- ===== src/Service/Locator/Lookup.antt =====
-- locator.rs: which instance a lookup finds.
use ice_rpc.Common.{
  suc, ◌≡◌, ◌≢◌, refl, ap, sym, ◌∙◌, arith, Option, none, some, List, [], ◌∷◌, length, subst,
  if◌then◌else◌, ==_refl,
}
use ice_rpc.Rx.Event.{Text}
use ice_rpc.Service.Locator.{
  ServiceLocator, ServiceEntry, Instance, Consumer, find, put, is_some, register, proxy, or_insert,
  cache_proxy, from_cache, from_entries, get, downcast,
}

module _ {V : Type 0} (dec : Discrete Text) where
  find-put :
      (name : Text) (v : V) (es : List (Text × V)) → find dec name (put dec name v es) ≡ some v
  unfolding find put
  find-put name v [] = ground arith
  find-put name v ((k, w) ∷ es) = ground (arith, find-put name v es)

  find-put-other :
      (name other : Text) (v : V) (es : List (Text × V))
      → name ≢ other
      → find dec other (put dec name v es) ≡ find dec other es
  unfolding find put
  find-put-other name other v [] ne = ground arith
  find-put-other name other v ((k, w) ∷ es) ne = ground (arith, find-put-other name other v es)

  length-put :
      (name : Text) (v : V) (es : List (Text × V))
      → length (put dec name v es)
        ≡ (if is_some dec (find dec name es) then length es else suc (length es))
  unfolding find put
  length-put name v [] = refl
  length-put name v ((k, w) ∷ es) = ground (arith, length-put name v es)

module _ (dec : Discrete Text) where
  downcast-proxy :
      (t : Consumer) (l : ServiceLocator)
      → downcast t.type_id (proxy dec t l) ≡ some (proxy dec t l)
  downcast-proxy t l = rw (==_refl t.type_id)

  cache_proxy-cached :
      (t : Consumer) (l : ServiceLocator)
      → find dec t.service_name l.lazy_cache ≡ none
      → find dec t.service_name (cache_proxy dec t l).1.lazy_cache ≡ some (proxy dec t l)
  unfolding cache_proxy
  cache_proxy-cached t l h =
      ap
        (λ x. find dec t.service_name (or_insert dec x t.service_name (proxy dec t l) l.lazy_cache))
        h
      ∙ find-put dec t.service_name (proxy dec t l) l.lazy_cache

  cache_proxy-kept :
      (t : Consumer) (i : Instance) (l : ServiceLocator)
      → find dec t.service_name l.lazy_cache ≡ some i
      → (cache_proxy dec t l).1.lazy_cache ≡ l.lazy_cache
  unfolding cache_proxy
  cache_proxy-kept t i l h = ap (λ x. or_insert dec x t.service_name (proxy dec t l) l.lazy_cache) h

  -- A second lookup of the same consumer finds the same instance and makes no proxy, whatever the
  -- first one found.
  pub get-again : (t : Consumer) (l : ServiceLocator) → get dec t (get dec t l).1 ≡ get dec t l
  unfolding get cache_proxy
  get-again t l =
      go (find dec t.service_name l.entries) refl (find dec t.service_name l.lazy_cache) refl
    where
      l' : ServiceLocator
      l' = (cache_proxy dec t l).1

      settled :
          (x : Option Instance × ServiceLocator)
          → get dec t l ≡ x
          → get dec t x.1 ≡ x
          → get dec t (get dec t l).1 ≡ get dec t l
      settled x found again = subst (λ y. get dec t y.1 ≡ y) (sym found) again

      go :
          (e : Option ServiceEntry)
          → find dec t.service_name l.entries ≡ e
          → (c : Option Instance) → find dec t.service_name l.lazy_cache ≡ c
          → get dec t (get dec t l).1 ≡ get dec t l
      go (some e) he c hc =
          let found = ap (λ x. from_entries dec x t l) he in
          settled (downcast t.type_id e.instance_of, l) found found
      go none he (some i) hc =
          let found = ap (λ x. from_entries dec x t l) he ∙ ap (λ x. from_cache dec x t l) hc in
          settled (downcast t.type_id i, l) found found
      go none he none hc =
          settled (cache_proxy dec t l)
            (ap (λ x. from_entries dec x t l) he ∙ ap (λ x. from_cache dec x t l) hc)
            (ap (λ x. from_entries dec x t l') he
              ∙ ap (λ x. from_cache dec x t l') (cache_proxy-cached t l hc)
              ∙ ap (λ x. (x, l')) (downcast-proxy t l))

  -- A registration is what later lookups of its name find, whether a proxy is cached or not; it tells
  -- whether it replaced a service, and adds one entry exactly if it did not; another name keeps what it
  -- had.
  pub register-get :
      (t : Consumer) (entry : ServiceEntry) (other : Text) (l : ServiceLocator)
      → t.service_name ≢ other
      → let (replaced, l') = register dec t.service_name entry l in
        (get dec t l' ≡ (downcast t.type_id entry.instance_of, l'))
        × (length l'.entries ≡ (if replaced then length l.entries else suc (length l.entries)))
        × (find dec other l'.entries ≡ find dec other l.entries)
  unfolding register get
  register-get t entry other l ne = (
    ap (λ x. from_entries dec x t (register dec t.service_name entry l).1)
        (find-put dec t.service_name entry l.entries),
    length-put dec t.service_name entry l.entries,
    find-put-other dec t.service_name other entry l.entries ne,
  )

  -- Two lookups of one consumer that both found nothing before either cached its proxy return
  -- different proxies; the one that was cached first stays, and is what later lookups find.
  pub cache_proxy-raced :
      (t : Consumer) (l : ServiceLocator)
      → find dec t.service_name l.entries ≡ none
      → find dec t.service_name l.lazy_cache ≡ none
      → let (first, l') = cache_proxy dec t l in
        let (second, l'') = cache_proxy dec t l' in (first ≢ second) × ((get dec t l'').0 ≡ first)
  unfolding cache_proxy get
  cache_proxy-raced t l he hc =
      let l' : ServiceLocator = (cache_proxy dec t l).1 in
      let l'' : ServiceLocator = (cache_proxy dec t l').1 in
      let first = cache_proxy-cached t l hc in
      let kept =
        ap (find dec t.service_name) (cache_proxy-kept t (proxy dec t l) l' first) ∙ first in
      (
        λ same. absurd (ground arith),
        ap (λ x. (from_entries dec x t l'').0) he
            ∙ ap (λ x. (from_cache dec x t l'').0) kept
            ∙ downcast-proxy t l,
      )
