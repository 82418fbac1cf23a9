-- ===== src/Monitor/Correlate/Lifecycle.antt =====
-- correlate.rs: a tracked call from its request to the end of its responses.
use mathlib.Core.Logic.{ite}
use ice_rpc.Common.{
  ◌≡◌, ◌≢◌, refl, arith, Bool, true, false, none, some, List, [], ◌∷◌, Option-cases, inl, inr,
}
use ice_rpc.Monitor.Correlate.{
  PendingCall, matched, unknown, Correlate, find, remove, put, contains, on_response,
}

module _ {K : Type 0} (dec : Discrete K) where
  find-put :
      (cid other : K) (new : PendingCall) (es : List (K × PendingCall))
      → find dec other (put dec cid new es) ≡ ite (dec cid other) (some new) (find dec other es)
  find-put cid other new [] = ground arith
  find-put cid other new ((k, call) ∷ es) = ground (arith, find-put cid other new es)

  find-remove :
      (cid other : K) (es : List (K × PendingCall))
      → find dec other (remove dec cid es) ≡ ite (dec cid other) none (find dec other es)
  find-remove cid other [] = ground arith
  find-remove cid other ((k, call) ∷ es) = ground (arith, find-remove cid other es)

  put_found :
      (cid : K) (new : PendingCall) (es : List (K × PendingCall))
      → find dec cid (put dec cid new es) ≡ some new
  put_found cid new es = ground (arith, find-put cid cid new es)

  removed : (cid : K) (es : List (K × PendingCall)) → find dec cid (remove dec cid es) ≡ none
  removed cid es = ground (arith, find-remove cid cid es)

  -- A tracked call answers each response that is not terminal with what was known before it, then
  -- counts as answered and stays tracked; the terminal response closes it, so that one more response
  -- is unknown. An unknown response changes nothing.
  pub on_response-tracks :
      (cid : K) (call : PendingCall) (t : Correlate K)
      → find dec cid t.entries ≡ some call
      → let t' = (on_response dec cid false t).1 in
        let t'' = (on_response dec cid true t').1 in
        (on_response dec cid false t).0 ≡ matched call
        × find dec cid t'.entries ≡ some (record call { first_response_seen = true })
        × (on_response dec cid true t').0 ≡ matched (record call { first_response_seen = true })
        × contains dec cid t'' ≡ false
        × ((terminal : Bool) → on_response dec cid terminal t'' ≡ (unknown, t''))
  unfolding on_response contains
  on_response-tracks cid call t h =
      let answered : PendingCall = record call { first_response_seen = true } in
      let es = put dec cid answered t.entries in
      rw (h, put_found cid answered t.entries, removed cid es)
        (refl, refl, refl, refl, λ terminal. refl)

  -- A response of one call leaves what is known of every other call as it is.
  pub on_response-other :
      (cid other : K) (terminal : Bool) (t : Correlate K)
      → other ≢ cid
      → find dec other (on_response dec cid terminal t).1.entries ≡ find dec other t.entries
  unfolding on_response
  on_response-other cid other true t h = ground (arith, find-remove cid other t.entries)
  on_response-other cid other false t h = elim (Option-cases (find dec cid t.entries)) [
    | inl e ↦ rw e refl
    | inr (call, e) ↦
        let answered : PendingCall = record call { first_response_seen = true } in
        rw (e, find-put cid other answered t.entries) (ground arith)
  ]
