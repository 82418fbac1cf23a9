-- ===== src/Rx/Subject/Replay.antt =====
-- subject.rs: the replay buffer holds the last values.
use ice_rpc.Common.{
  ◌≡◌, refl, ap, sym, ◌∙◌, ==_iff, ℕ, zero, suc, ◌+◌, ◌-◌, ◌==◌, ◌≤◌, ltb, true, List, [], ◌∷◌,
  ◌++◌, length, drop, if◌then◌else◌, length-append, length-drop, drop-drop, Bool-cases, inl, inr,
  arith,
}
use ice_rpc.Rx.Subject.{remember}

module _ {ℓ} {T : Type ℓ} where
  -- The last `n` elements, or all if there are fewer.
  abbrev pub last_values : ℕ → List T → List T
  last_values n xs = drop (length xs - n) xs

  drop-append_le : (n : ℕ) (xs ys : List T) → n ≤ length xs → drop n (xs ++ ys) ≡ drop n xs ++ ys
  drop-append_le zero xs ys h = refl
  drop-append_le (suc n) [] ys h = absurd (omega arith)
  drop-append_le (suc n) (x ∷ xs) ys h = drop-append_le n xs ys (omega arith)

  drop-length : (xs : List T) → drop (length xs) xs ≡ []
  drop-length [] = refl
  drop-length (x ∷ xs) = drop-length xs

  last_values-zero : (xs : List T) → last_values 0 xs ≡ []
  last_values-zero xs = let e : length xs - 0 ≡ length xs = omega arith in rw e (drop-length xs)

  pub last_values-nil : (n : ℕ) → last_values n [] ≡ []
  last_values-nil n = let e : 0 - n ≡ 0 = omega arith in rw e

  last_values-append_one :
      (n : ℕ) (xs : List T) (v : T)
      → last_values (suc n) (xs ++ v ∷ []) ≡ drop (length xs - n) xs ++ v ∷ []
  last_values-append_one n xs v =
      let e : length (xs ++ v ∷ []) - suc n ≡ length xs - n =
        omega (arith, length-append xs (v ∷ [])) in
      rw e (drop-append_le (length xs - n) xs (v ∷ []) (omega arith))

  -- What a full buffer drops, and what one with room keeps.
  make_room :
      (n : ℕ) (xs : List T)
      → (let replay : List T = last_values (suc n) xs in
          if length replay == suc n then drop 1 replay else replay)
        ≡ drop (length xs - n) xs
  make_room n xs = elim (Bool-cases (length (last_values (suc n) xs) == suc n)) [
    | inl e ↦
        let full : length xs - (length xs - suc n) ≡ suc n =
          sym (length-drop (length xs - suc n) xs) ∙ (==_iff _ _).0 e in
        let one : length xs - suc n + 1 ≡ length xs - n = omega arith in
        rw e (drop-drop 1 (length xs - suc n) xs ∙ ap (λ k. drop k xs) one)
    | inr e ↦
        let room : length xs - suc n ≡ length xs - n =
          ground (arith, length-drop (length xs - suc n) xs) in
        rw e (ap (λ k. drop k xs) room)
  ]

  pub remember-last_values :
      (n : ℕ) (xs : List T) (v : T) → remember n v (last_values n xs) ≡ last_values n (xs ++ v ∷ [])
  unfolding remember
  remember-last_values zero xs v = last_values-zero xs ∙ sym (last_values-zero (xs ++ v ∷ []))
  remember-last_values (suc n) xs v =
      let room : ltb 0 (suc n) ≡ true = ground arith in
      rw room (rw (make_room n xs) (sym (last_values-append_one n xs v)))
