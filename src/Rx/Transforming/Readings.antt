-- ===== src/Rx/Transforming/Readings.antt =====
-- transforming.rs: what a consumer reads behind each operator, for every schedule of the source.
use ice_rpc.Common.{◌≡◌, refl, ap, ℕ, zero, suc, ◌<◌, List, [], ◌∷◌, length, map, arith}
use ice_rpc.Rx.Event.{Event, business, technical, empty}
use ice_rpc.Rx.Stream.{pending, ready, Script}
use ice_rpc.Rx.Polls.{Reading, Ending, closed, completed, failed, reading, cons_value, with_values}
use ice_rpc.Rx.Transforming
use ice_rpc.Rx.Transforming.{poll_scan}

module _ {ℓ μ} {T : Type ℓ} {U : Type μ} where
  -- The accumulator after each value.
  abbrev pub accumulated : (U → T → U) → U → List T → List U
  accumulated f acc [] = []
  accumulated f acc (v ∷ vs) = f acc v ∷ accumulated f (f acc v) vs

module _ {κ μ} {E : Type κ} {F : Type μ} where
  -- A business error is mapped; a technical error and `Empty` carry none.
  abbrev pub mapped_ending : (E → F) → Ending E → Ending F
  mapped_ending f closed = closed
  mapped_ending f completed = completed
  mapped_ending f (failed (business e)) = failed (business (f e))
  mapped_ending f (failed (technical e)) = failed (technical e)
  mapped_ending f (failed empty) = failed empty

module _ {ℓ κ μ} {T : Type ℓ} {U : Type μ} {E : Type κ} where
  -- A consumer of `map` reads the image of each value of the source, and the source's own ending,
  -- once it polls more often than the source answers.
  pub map-reading :
      (n : ℕ) (f : T → U) (s : Script T E)
      → length s < n
      → reading (Transforming.map n f s) ≡ with_values (map f) (reading s)
  unfolding Transforming.map reading
  map-reading zero f s h = absurd (omega arith)
  map-reading (suc n) f [] h = refl
  map-reading (suc n) f (pending ∷ s) h = map-reading n f s (omega arith)
  map-reading (suc n) f (ready (Event.next v) ∷ s) h =
      ap (cons_value (f v)) (map-reading n f s (omega arith))
  map-reading (suc n) f (ready Event.complete ∷ s) h = refl
  map-reading (suc n) f (ready (Event.error e) ∷ s) h = refl

  -- A consumer of `scan` reads the accumulator after each value of the source, and the source's
  -- own ending, once it polls more often than the source answers.
  pub scan-reading :
      (n : ℕ) (f : U → T → U) (acc : U) (s : Script T E)
      → length s < n
      → reading (Transforming.scan n acc f s) ≡ with_values (accumulated f acc) (reading s)
  unfolding Transforming.scan reading
  scan-reading zero f acc s h = absurd (omega arith)
  scan-reading (suc n) f acc [] h = refl
  scan-reading (suc n) f acc (pending ∷ s) h = scan-reading n f acc s (omega arith)
  scan-reading (suc n) f acc (ready (Event.next v) ∷ s) h =
      ap (cons_value (f acc v)) (scan-reading n f (f acc v) s (omega arith))
  scan-reading (suc n) f acc (ready Event.complete ∷ s) h = refl
  scan-reading (suc n) f acc (ready (Event.error e) ∷ s) h = refl

module _ {ℓ κ μ} {T : Type ℓ} {E : Type κ} {F : Type μ} where
  abbrev pub with_ending : (Ending E → Ending F) → Reading T E → Reading T F
  with_ending f r = record { values = r.values; ending = f r.ending }

  -- A consumer of `map_err` reads the source's values, and its ending with the business error
  -- mapped and every other ending as it is, once it polls more often than the source answers.
  pub map_err-reading :
      (n : ℕ) (f : E → F) (s : Script T E)
      → length s < n
      → reading (Transforming.map_err n f s) ≡ with_ending (mapped_ending f) (reading s)
  unfolding Transforming.map_err reading
  map_err-reading zero f s h = absurd (omega arith)
  map_err-reading (suc n) f [] h = refl
  map_err-reading (suc n) f (pending ∷ s) h = map_err-reading n f s (omega arith)
  map_err-reading (suc n) f (ready (Event.next v) ∷ s) h =
      ap (cons_value v) (map_err-reading n f s (omega arith))
  map_err-reading (suc n) f (ready Event.complete ∷ s) h = refl
  map_err-reading (suc n) f (ready (Event.error (business e)) ∷ s) h = refl
  map_err-reading (suc n) f (ready (Event.error (technical e)) ∷ s) h = refl
  map_err-reading (suc n) f (ready (Event.error empty) ∷ s) h = refl

module _ {ℓ κ μ ν} {T : Type ℓ} {U : Type μ} {E : Type κ} {F : Type ν} where
  -- For every schedule of the source, a consumer that polls more often than the source answers
  -- reads: behind `map`, the image of each value; behind `scan`, the accumulator after each value;
  -- both with the source's own ending; and behind `map_err`, the source's values, and its ending
  -- with a business error mapped and every other ending as it is.
  pub transforming-reading :
      (n : ℕ) (f : T → U) (g : U → T → U) (acc : U) (h : E → F) (s : Script T E)
      → length s < n
      → (reading (Transforming.map n f s) ≡ with_values (map f) (reading s))
        × (reading (Transforming.scan n acc g s) ≡ with_values (accumulated g acc) (reading s))
        × (reading (Transforming.map_err n h s) ≡ with_ending (mapped_ending h) (reading s))
  transforming-reading n f g acc h s b =
      (map-reading n f s b, scan-reading n g acc s b, map_err-reading n h s b)
