-- ===== src/Monitor/Collector/Gauge.antt =====
-- correlate.rs: how many of the calls that the table tracks are of one channel and one service.
use ice_rpc.Common.{ℕ, ◌+◌, ◌≡◌, refl, arith, none, some, List, [], ◌∷◌, if◌then◌else◌, subst, ap}
use mathlib.Core.Logic.{ite}
use ice_rpc.Rx.Event.{Text}
use ice_rpc.Monitor.Correlate.{PendingCall, older, find, remove, put, retained, expired, make_room}
use ice_rpc.Monitor.Correlate.Distinct.{
  IsDistinct, older_found, remove-IsDistinct, find-remove-none,
}
use ice_rpc.Monitor.Metrics.{is_key}

module _ (c : Text) (s : ℕ) where
  -- 1 for a call of the channel and the service, 0 for another.
  abbrev pub one_of : PendingCall → ℕ
  one_of call = if is_key call.channel call.service_id c s then 1 else 0

  abbrev pub count : List PendingCall → ℕ
  count [] = 0
  count (call ∷ calls) = one_of call + count calls

  abbrev pub tracked : {K : Type 0} → List (K × PendingCall) → ℕ
  tracked [] = 0
  tracked ((k, call) ∷ es) = one_of call + tracked es

  module _ {K : Type 0} where
    pub tracked-retained :
        (now ttl : ℕ) (es : List (K × PendingCall))
        → tracked es ≡ count (expired now ttl es) + tracked (retained now ttl es)
    tracked-retained now ttl [] = refl
    tracked-retained now ttl ((k, call) ∷ es) = ground (arith, tracked-retained now ttl es)

  module _ {K : Type 0} (dec : Discrete K) where
    pub tracked-remove-none :
        (cid : K) (es : List (K × PendingCall))
        → find dec cid es ≡ none
        → tracked (remove dec cid es) ≡ tracked es
    tracked-remove-none cid [] h = refl
    tracked-remove-none cid ((k, call) ∷ es) h = ground (arith, tracked-remove-none cid es)

    pub tracked-remove :
        (cid : K) (call : PendingCall) (es : List (K × PendingCall))
        → IsDistinct dec es
        → find dec cid es ≡ some call
        → tracked es ≡ one_of call + tracked (remove dec cid es)
    tracked-remove cid call [] d h = cc
    tracked-remove cid call ((k, a) ∷ es) (free, d) h =
        go (dec k cid) (tracked-remove cid call es d) h
      where
        go :
            (x : Dec (Path K k cid))
            → (find dec cid es ≡ some call → tracked es ≡ one_of call + tracked (remove dec cid es))
            → ite x (some a) (find dec cid es) ≡ some call
            → one_of a + tracked es
              ≡ one_of call + tracked (ite x (remove dec cid es) ((k, a) ∷ remove dec cid es))
        go (yes e) rec g =
            let gone : find dec cid es ≡ none = subst (λ l. find dec l es ≡ none) e free in
            let same : a ≡ call = cc in
            let ones : one_of a ≡ one_of call = ap one_of same in
            let rest = tracked-remove-none cid es gone in omega arith
        go (no ne) rec g = let rest = rec g in omega arith

    pub tracked-put-none :
        (cid : K) (new : PendingCall) (es : List (K × PendingCall))
        → find dec cid es ≡ none
        → tracked (put dec cid new es) ≡ one_of new + tracked es
    tracked-put-none cid new [] h = refl
    tracked-put-none cid new ((k, a) ∷ es) h = ground (arith, tracked-put-none cid new es)

    -- A call is marked in place.
    pub tracked-put_found :
        (cid : K) (call new : PendingCall) (es : List (K × PendingCall))
        → one_of new ≡ one_of call
        → find dec cid es ≡ some call
        → tracked (put dec cid new es) ≡ tracked es
    tracked-put_found cid call new [] same h = cc
    tracked-put_found cid call new ((k, a) ∷ es) same h =
        go (dec k cid) (tracked-put_found cid call new es same) h
      where
        go :
            (x : Dec (Path K k cid))
            → (find dec cid es ≡ some call → tracked (put dec cid new es) ≡ tracked es)
            → ite x (some a) (find dec cid es) ≡ some call
            → tracked (ite x ((k, new) ∷ es) ((k, a) ∷ put dec cid new es)) ≡ one_of a + tracked es
        go (yes e) rec g =
            let same_call : a ≡ call = cc in
            let ones : one_of a ≡ one_of call = ap one_of same_call in omega arith
        go (no ne) rec g = let rest = rec g in omega arith

    -- Making room gives up what it no longer tracks.
    pub tracked-make_room :
        (es : List (K × PendingCall))
        → IsDistinct dec es
        → tracked es ≡ count (make_room dec es).0 + tracked (make_room dec es).1
    tracked-make_room [] d = refl
    tracked-make_room (e ∷ es) d =
        let (k, old) = older e es in
        let found : find dec k (e ∷ es) ≡ some old = older_found dec (k, old) e es refl d in
        let fewer = tracked-remove k old (e ∷ es) d found in rw found (omega arith)

module _ {K : Type 0} (dec : Discrete K) where
  -- What is looked for and not found stays so when room is made.
  pub find-make_room :
      (cid : K) (es : List (K × PendingCall))
      → IsDistinct dec es
      → find dec cid es ≡ none
      → IsDistinct dec (make_room dec es).1 × find dec cid (make_room dec es).1 ≡ none
  find-make_room cid [] d h = (tt, refl)
  find-make_room cid (e ∷ es) d h =
      let (k, old) = older e es in
      let found : find dec k (e ∷ es) ≡ some old = older_found dec (k, old) e es refl d in
      rw found (remove-IsDistinct dec k (e ∷ es) d, find-remove-none dec cid k (e ∷ es) h)
