-- ===== src/Monitor/Correlate/Distinct.antt =====
-- correlate.rs: the list that stands for the map has one entry for an id, and its oldest call is found.
use ice_rpc.Common.{
  ℕ, suc, ◌<◌, ◌≤◌, ◌≡◌, ◌≢◌, refl, arith, Bool, true, false, none, some, List, [], ◌∷◌, ltb,
  length, All, if◌then◌else◌,
}
use ice_rpc.Monitor.Correlate.{PendingCall, older, find, remove, put, retained}

module _ {K : Type 0} where
  abbrev pub IsOldest : ℕ → List (K × PendingCall) → Type 0
  IsOldest started es = All (λ e. started ≤ e.1.started) es

  pub older-IsOldest :
      (n : ℕ) (e : K × PendingCall) (es : List (K × PendingCall))
      → (older e es).1.started ≡ n
      → IsOldest n (e ∷ es)
  older-IsOldest n e [] h = (omega arith, tt)
  older-IsOldest n e (f ∷ es) h =
      let (low, rest) = older-IsOldest n (if ltb f.1.started e.1.started then f else e) es h in
      (ground arith, (ground arith, rest))

module _ {K : Type 0} (dec : Discrete K) where
  pub length-put :
      (cid : K) (new : PendingCall) (es : List (K × PendingCall))
      → length (put dec cid new es) ≤ suc (length es)
  length-put cid new [] = omega arith
  length-put cid new ((k, call) ∷ es) = ground (arith, length-put cid new es)

  pub length-remove :
      (cid : K) (es : List (K × PendingCall)) → length (remove dec cid es) ≤ length es
  length-remove cid [] = omega arith
  length-remove cid ((k, call) ∷ es) = ground (arith, length-remove cid es)

  pub length-remove_found :
      (cid : K) (call : PendingCall) (es : List (K × PendingCall))
      → find dec cid es ≡ some call
      → length (remove dec cid es) < length es
  length-remove_found cid call [] h = cc
  length-remove_found cid call ((k, c) ∷ es) h =
      ground (arith, length-remove cid es, length-remove_found cid call es)

  -- No id has two entries.
  abbrev pub IsDistinct : List (K × PendingCall) → Type 0
  IsDistinct [] = Unit
  IsDistinct ((k, call) ∷ es) = find dec k es ≡ none × IsDistinct es

  pub found_elsewhere :
      (k l : K) (call c : PendingCall) (es : List (K × PendingCall))
      → find dec k es ≡ none
      → find dec l es ≡ some c
      → find dec l ((k, call) ∷ es) ≡ some c
  found_elsewhere k l call c es h g = ground arith

  pub found_between :
      (k l m : K) (a b c : PendingCall) (es : List (K × PendingCall))
      → find dec m es ≡ none
      → k ≢ m
      → find dec l ((k, a) ∷ es) ≡ some c
      → find dec l ((k, a) ∷ (m, b) ∷ es) ≡ some c
  found_between k l m a b c es h ne g = ground arith

  pub older_found :
      (o e : K × PendingCall) (es : List (K × PendingCall))
      → older e es ≡ o
      → IsDistinct (e ∷ es)
      → find dec o.0 (e ∷ es) ≡ some o.1
  older_found o (k, a) [] h d = ground arith
  older_found o (k, a) ((m, b) ∷ es) h (free, (free', d)) =
      go (ltb b.started a.started) h (λ g. older_found o (m, b) es g (free', d))
        (λ apart g. older_found o (k, a) es g (apart, d))
    where
      go :
          (c : Bool)
          → older (if c then (m, b) else (k, a)) es ≡ o
          → (older (m, b) es ≡ o → find dec o.0 ((m, b) ∷ es) ≡ some o.1)
          → (find dec k es ≡ none → older (k, a) es ≡ o → find dec o.0 ((k, a) ∷ es) ≡ some o.1)
          → find dec o.0 ((k, a) ∷ (m, b) ∷ es) ≡ some o.1
      go true g younger same = found_elsewhere k o.0 a o.1 ((m, b) ∷ es) free (younger g)
      go false g younger same =
          found_between k o.0 m a b o.1 es free' (ground arith) (same (ground arith) g)

  pub find-put-none :
      (l cid : K) (new : PendingCall) (es : List (K × PendingCall))
      → find dec l es ≡ none
      → l ≢ cid
      → find dec l (put dec cid new es) ≡ none
  find-put-none l cid new [] h ne = ground arith
  find-put-none l cid new ((k, call) ∷ es) h ne = ground (arith, find-put-none l cid new es)

  pub put-IsDistinct :
      (cid : K) (new : PendingCall) (es : List (K × PendingCall))
      → IsDistinct es
      → IsDistinct (put dec cid new es)
  put-IsDistinct cid new [] d = (refl, tt)
  put-IsDistinct cid new ((k, call) ∷ es) (free, d) =
      ground (arith, find-put-none k cid new es, put-IsDistinct cid new es d)

  pub find-remove-none :
      (l cid : K) (es : List (K × PendingCall))
      → find dec l es ≡ none
      → find dec l (remove dec cid es) ≡ none
  find-remove-none l cid [] h = refl
  find-remove-none l cid ((k, call) ∷ es) h = ground (arith, find-remove-none l cid es)

  pub remove-IsDistinct :
      (cid : K) (es : List (K × PendingCall)) → IsDistinct es → IsDistinct (remove dec cid es)
  remove-IsDistinct cid [] d = tt
  remove-IsDistinct cid ((k, call) ∷ es) (free, d) =
      ground (arith, find-remove-none k cid es, remove-IsDistinct cid es d)

  pub find-retained-none :
      (l : K) (now ttl : ℕ) (es : List (K × PendingCall))
      → find dec l es ≡ none
      → find dec l (retained now ttl es) ≡ none
  find-retained-none l now ttl [] h = refl
  find-retained-none l now ttl ((k, call) ∷ es) h = ground (arith, find-retained-none l now ttl es)

  pub retained-IsDistinct :
      (now ttl : ℕ) (es : List (K × PendingCall)) → IsDistinct es → IsDistinct (retained now ttl es)
  retained-IsDistinct now ttl [] d = tt
  retained-IsDistinct now ttl ((k, call) ∷ es) (free, d) =
      ground (arith, find-retained-none k now ttl es, retained-IsDistinct now ttl es d)

  pub length-put_found :
      (cid : K) (call new : PendingCall) (es : List (K × PendingCall))
      → find dec cid es ≡ some call
      → length (put dec cid new es) ≡ length es
  length-put_found cid call new [] h = cc
  length-put_found cid call new ((k, c) ∷ es) h = ground (arith, length-put_found cid call new es)
