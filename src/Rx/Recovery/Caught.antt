-- ===== src/Rx/Recovery/Caught.antt =====
-- error_handling.rs: what a consumer reads behind `catch_error`.
use ice_rpc.Common.{
  ◌≡◌, refl, ap, ◌∙◌, ℕ, zero, suc, ◌+◌, ◌<◌, ◌≤◌, false, some, List, [], ◌∷◌, length, arith,
}
use ice_rpc.Rx.Event.{Event, business, technical, empty}
use ice_rpc.Rx.Stream.{pending, ready, Script}
use ice_rpc.Rx.Polls.{
  Reading, Ending, closed, completed, failed, polls, reading, cons_value, continued,
}
use ice_rpc.Rx.Recovery
use ice_rpc.Rx.Recovery.{CatchError, poll_catch_error}

module _ {ℓ κ} {T : Type ℓ} {E : Type κ} where
  -- What `catch_error` makes of a stream: a business error gives way to its recovery.
  abbrev pub caught : (E → Script T E) → List T → Ending E → Reading T E
  caught f vs (failed (business e)) = continued vs (reading (f e))
  caught f vs (failed (technical e)) = record { values = vs; ending = failed (technical e) }
  caught f vs (failed empty) = record { values = vs; ending = failed empty }
  caught f vs completed = record { values = vs; ending = completed }
  caught f vs closed = record { values = vs; ending = closed }

  caught-cons :
      (f : E → Script T E) (v : T) (vs : List T) (end : Ending E)
      → cons_value v (caught f vs end) ≡ caught f (v ∷ vs) end
  caught-cons f v vs (failed (business e)) = refl
  caught-cons f v vs (failed (technical e)) = refl
  caught-cons f v vs (failed empty) = refl
  caught-cons f v vs completed = refl
  caught-cons f v vs closed = refl

  recovering :
      (n : ℕ) (f : E → Script T E) (source r : Script T E)
      → length r < n
      → reading (
          polls n
            (poll_catch_error f)
            (record { source = source; recovery = some r; finished = false }))
        ≡ reading r
  unfolding polls poll_catch_error reading
  recovering zero f source r h = absurd (omega arith)
  recovering (suc n) f source [] h = refl
  recovering (suc n) f source (pending ∷ r) h = recovering n f source r (omega arith)
  recovering (suc n) f source (ready (Event.next v) ∷ r) h =
      ap (cons_value v) (recovering n f source r (omega arith))
  recovering (suc n) f source (ready Event.complete ∷ r) h = refl
  recovering (suc n) f source (ready (Event.error e) ∷ r) h = refl

  -- A consumer of `catch_error` reads the source's values; behind them, if the source ends by a
  -- business error, all that the recovery from that error gives, its ending included; and otherwise
  -- the source's own ending, technical errors included. This holds once it polls more often than
  -- the source and the longest recovery answer together.
  pub catch_error-reading :
      (n longest : ℕ) (f : E → Script T E)
      → ((e : E) → length (f e) ≤ longest)
      → (s : Script T E) → length s + longest < n
      → reading (Recovery.catch_error n f s) ≡ caught f (reading s).values (reading s).ending
  unfolding Recovery.catch_error reading
  catch_error-reading zero longest f bound s h = absurd (omega arith)
  catch_error-reading (suc n) longest f bound [] h = refl
  catch_error-reading (suc n) longest f bound (pending ∷ s) h =
      catch_error-reading n longest f bound s (omega arith)
  catch_error-reading (suc n) longest f bound (ready (Event.next v) ∷ s) h =
      ap (cons_value v) (catch_error-reading n longest f bound s (omega arith))
      ∙ caught-cons f v (reading s).values (reading s).ending
  catch_error-reading (suc n) longest f bound (ready Event.complete ∷ s) h = refl
  catch_error-reading (suc n) longest f bound (ready (Event.error (business e)) ∷ s) h =
      unfold Recovery.catch_error in recovering (suc n) f s (f e) (omega (arith, bound e))
  catch_error-reading (suc n) longest f bound (ready (Event.error (technical e)) ∷ s) h = refl
  catch_error-reading (suc n) longest f bound (ready (Event.error empty) ∷ s) h = refl
