-- ===== src/Transport/Hub/Tokens.antt =====
-- server.rs: what the registry of the calls in flight finds behind its changes.
use ice_rpc.Common.{
  ℕ, ◌≡◌, refl, ap, ◌∙◌, arith, Bool, true, false, Option, none, some, List, [], ◌∷◌, if◌then◌else◌,
}
use ice_rpc.Transport.Hub.{same_id, token_of, without}

pub same_id_refl : (a : List ℕ) → same_id a a ≡ true
unfolding same_id
same_id_refl [] = refl
same_id_refl (a ∷ as') = ground (arith, same_id_refl as')

same_id_eq : (a b : List ℕ) → same_id a b ≡ true → a ≡ b
unfolding same_id
same_id_eq [] [] h = refl
same_id_eq [] (b ∷ bs) h = cc
same_id_eq (a ∷ as') [] h = cc
same_id_eq (a ∷ as') (b ∷ bs) h = ground (arith, same_id_eq as' bs)

-- What is taken out under an id is found under that id no more, and under any other as before.
pub token_of-without :
    (cid other : List ℕ) (calls : List (List ℕ × ℕ))
    → token_of other (without cid calls)
      ≡ (if same_id cid other then none else token_of other calls)
unfolding token_of without
token_of-without cid other [] = go (same_id cid other)
  where
    absent : Option ℕ
    absent = none

    go : (b : Bool) → absent ≡ (if b then absent else absent)
    go true = refl
    go false = refl
token_of-without cid other ((k, t) ∷ calls) =
    go (same_id k cid) (same_id cid other) (same_id k other) refl refl refl
      (token_of-without cid other calls)
  where
    go :
        (b c d : Bool)
        → same_id k cid ≡ b
        → same_id cid other ≡ c
        → same_id k other ≡ d
        → token_of other (without cid calls)
          ≡ (if same_id cid other then none else token_of other calls)
        → token_of other (if b then without cid calls else (k, t) ∷ without cid calls)
          ≡ (if c then none else if d then some t else token_of other calls)
    go true true d p q r rec = rec ∙ ap (λ x. if x then none else token_of other calls) q
    go true false true p q r rec =
        let same : same_id k other ≡ same_id cid other =
          ap (λ x. same_id x other) (same_id_eq k cid p) in
        cc (same, q, r)
    go true false false p q r rec = rec ∙ ap (λ x. if x then none else token_of other calls) q
    go false true true p q r rec =
        let same : same_id k cid ≡ same_id k other = ap (same_id k) (same_id_eq cid other q) in
        cc (same, p, r)
    go false true false p q r rec =
        ap (λ x. if x then some t else token_of other (without cid calls)) r
        ∙ rec
        ∙ ap (λ x. if x then none else token_of other calls) q
    go false false true p q r rec =
        ap (λ x. if x then some t else token_of other (without cid calls)) r
    go false false false p q r rec =
        ap (λ x. if x then some t else token_of other (without cid calls)) r
        ∙ rec
        ∙ ap (λ x. if x then none else token_of other calls) q

-- What is registered is found under its id, and any other id finds what it found before.
pub token_of-registered :
    (cid other : List ℕ) (token : ℕ) (calls : List (List ℕ × ℕ))
    → token_of other ((cid, token) ∷ without cid calls)
      ≡ (if same_id cid other then some token else token_of other calls)
unfolding token_of
token_of-registered cid other token calls =
    go (same_id cid other) refl (token_of-without cid other calls)
  where
    go :
        (b : Bool)
        → same_id cid other ≡ b
        → token_of other (without cid calls)
          ≡ (if same_id cid other then none else token_of other calls)
        → (if b then some token else token_of other (without cid calls))
          ≡ (if b then some token else token_of other calls)
    go true e rec = refl
    go false e rec = rec ∙ ap (λ x. if x then none else token_of other calls) e
