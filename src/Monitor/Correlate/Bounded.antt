-- ===== src/Monitor/Correlate/Bounded.antt =====
-- correlate.rs: how many calls the table holds, and which ones it gives up.
use ice_rpc.Common.{
  ℕ, ◌+◌, ◌<◌, ◌≤◌, ◌≡◌, refl, arith, Bool, true, false, some, List, [], ◌∷◌, leb, inl, inr, length,
  All, if◌then◌else◌, Option-cases, Bool-cases,
}
use ice_rpc.Monitor.Correlate.{
  PendingCall, Correlate, older, find, resolve, make_room, insert, on_response, expired, retained,
  sweep, len, age,
}
use ice_rpc.Monitor.Correlate.Distinct.{
  IsOldest, older-IsOldest, IsDistinct, older_found, put-IsDistinct, remove-IsDistinct,
  retained-IsDistinct, length-put, length-remove, length-remove_found, length-put_found,
}

module _ {K : Type 0} where
  length-retained :
      (now ttl : ℕ) (es : List (K × PendingCall))
      → length (expired now ttl es) + length (retained now ttl es) ≡ length es
  length-retained now ttl [] = refl
  length-retained now ttl ((k, call) ∷ es) = ground (arith, length-retained now ttl es)

  expired-All :
      (now ttl : ℕ) (es : List (K × PendingCall))
      → All (λ call. ttl ≤ age now call) (expired now ttl es)
  expired-All now ttl [] = tt
  expired-All now ttl ((k, call) ∷ es) =
      let rest = expired-All now ttl es in
      elim (Bool-cases (leb ttl (age now call))) [
        | inl c ↦ rw c (ground arith, rest)
        | inr c ↦ rw c rest
      ]

  retained-All :
      (now ttl : ℕ) (es : List (K × PendingCall))
      → All (λ e. age now e.1 < ttl) (retained now ttl es)
  retained-All now ttl [] = tt
  retained-All now ttl ((k, call) ∷ es) =
      let rest = retained-All now ttl es in
      elim (Bool-cases (leb ttl (age now call))) [
        | inl c ↦ rw c rest
        | inr c ↦ rw c (ground arith, rest)
      ]

  -- A sweep gives up exactly the calls that have reached their time to live: every call is given up
  -- or kept, those given up are old enough, and those kept are not.
  pub sweep-splits :
      (now : ℕ) (t : Correlate K)
      → let (evicted, t') = sweep now t in
        length evicted + len t' ≡ len t
        × All (λ call. t.ttl ≤ age now call) evicted
        × All (λ e. age now e.1 < t.ttl) t'.entries
  unfolding sweep len
  sweep-splits now t = (
    length-retained now t.ttl t.entries,
    expired-All now t.ttl t.entries,
    retained-All now t.ttl t.entries,
  )

module _ {K : Type 0} (dec : Discrete K) where
  -- What making room in a table of calls leaves and gives up.
  abbrev HasRoom : List (K × PendingCall) → List PendingCall × List (K × PendingCall) → Type 0
  HasRoom es (evicted, kept) =
      length evicted ≤ 1
      × All (λ old. IsOldest old.started es) evicted
      × IsDistinct dec kept
      × (0 < length es → length kept < length es)

  make_room-HasRoom :
      (es : List (K × PendingCall)) → IsDistinct dec es → HasRoom es (make_room dec es)
  make_room-HasRoom [] d = ground arith
  make_room-HasRoom (e ∷ es) d =
      let (k, old) = older e es in
      let found : find dec k (e ∷ es) ≡ some old = older_found dec (k, old) e es refl d in
      let fewer = length-remove_found dec k old (e ∷ es) found in
      rw (found) (
        omega arith,
        (older-IsOldest old.started e es refl, tt),
        remove-IsDistinct dec k (e ∷ es) d,
        λ some'. fewer,
      )

  room-HasRoom :
      (t : Correlate K)
      → IsDistinct dec t.entries
      → let (evicted, kept) : List PendingCall × List (K × PendingCall) =
          if leb t.max (length t.entries) then make_room dec t.entries else ([], t.entries) in
        length evicted ≤ 1
        × (length t.entries < t.max → evicted ≡ [])
        × All (λ old. IsOldest old.started t.entries) evicted
        × IsDistinct dec kept
        × (0 < t.max → length t.entries ≤ t.max → length kept < t.max)
  room-HasRoom t d = elim (Bool-cases (leb t.max (length t.entries))) [
    | inl c ↦
        let (one, oldest, distinct, fewer) = make_room-HasRoom t.entries d in
        rw c (one, λ less. absurd (ground arith), oldest, distinct, λ room low. ground arith)
    | inr c ↦ rw c (omega arith, λ less. refl, tt, d, λ room low. ground arith)
  ]

  -- The table's invariant: no id twice, and no more calls than it may hold.
  unfoldable pub IsValid : Correlate K → Type 0
  IsValid t = IsDistinct dec t.entries × length t.entries ≤ t.max

  on_response-IsValid :
      (cid : K) (terminal : Bool) (t : Correlate K)
      → IsDistinct dec t.entries
      → length t.entries ≤ t.max
      → IsValid (on_response dec cid terminal t).1
  unfolding IsValid on_response
  on_response-IsValid cid terminal t d low = elim (Option-cases (find dec cid t.entries)) [
    | inl e ↦ rw e (d, low)
    | inr (call, e) ↦ rw e (go terminal call e)
  ]
    where
      go :
          (b : Bool) (call : PendingCall)
          → find dec cid t.entries ≡ some call
          → IsValid (resolve dec (some call) cid b t).1
      go true call e =
          let less = length-remove dec cid t.entries in
          (remove-IsDistinct dec cid t.entries d, omega arith)
      go false call e =
          let answered : PendingCall = record call { first_response_seen = true } in
          let same = length-put_found dec cid call answered t.entries e in
          (put-IsDistinct dec cid answered t.entries d, omega arith)

  -- Every operation keeps a table valid that may hold a call at all: a new request, a response, and
  -- a sweep.
  pub operations-IsValid :
      (t : Correlate K)
      → 0 < t.max
      → IsValid t
      → ((cid : K) (call : PendingCall) → IsValid (insert dec cid call t).1)
        × ((cid : K) (terminal : Bool) → IsValid (on_response dec cid terminal t).1)
        × ((now : ℕ) → IsValid (sweep now t).1)
  unfolding IsValid insert on_response sweep
  operations-IsValid t room (d, low) =
      let (_, _, _, distinct, fewer) = room-HasRoom t d in
      let lower = fewer room low in
      let kept =
        (if leb t.max (length t.entries) then make_room dec t.entries else ([], t.entries)).1 in
      (
        λ cid call. (
          put-IsDistinct dec cid call _ distinct,
          (let grown = length-put dec cid call kept in omega arith),
        ),
        λ cid terminal. on_response-IsValid cid terminal t d low,
        λ now. (
          retained-IsDistinct dec now t.ttl t.entries d,
          (let e = length-retained now t.ttl t.entries in omega arith),
        ),
      )

  -- A new request gives up at most one call, none while there is room for one more, and the call
  -- given up is one that no other call of the table has waited longer than.
  pub insert-evicts :
      (cid : K) (call : PendingCall) (t : Correlate K)
      → IsDistinct dec t.entries
      → let evicted = (insert dec cid call t).0 in
        length evicted ≤ 1
        × (length t.entries < t.max → evicted ≡ [])
        × All (λ old. IsOldest old.started t.entries) evicted
  unfolding insert
  insert-evicts cid call t d =
      let (one, spare, oldest, _, _) = room-HasRoom t d in (one, spare, oldest)
