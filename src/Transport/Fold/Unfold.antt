-- ===== src/Transport/Fold/Unfold.antt =====
-- bridge.rs against wire.rs: expanding the samples gives back the events of the source.
use ice_rpc.Common.{
  ℕ, zero, suc, ◌+◌, ◌<◌, ◌≡◌, refl, sym, ap, Bool, true, false, Option, none, some, List, [], ◌∷◌,
  ◌++◌, map, arith, length,
}
use mathlib.Core.List.{map-append}
use ice_rpc.Rx.Event.{Event, business, technical, empty}
use ice_rpc.Rx.Stream.{Poll, pending, ready, Script, poll_next}
use ice_rpc.Wire.Event.{WireEvent, from_event, normalize_wire_event}
use ice_rpc.Transport.Fold.{WireFolding, new, fold_event, collected, wires}

module _ {ℓ κ} {T : Type ℓ} {E : Type κ} where
  -- The events that a consumer sees of a sample.
  abbrev pub follow : Event T E × Option (Event T E) → List (Event T E)
  follow (e, none) = e ∷ []
  follow (e, some f) = e ∷ f ∷ []

  unfoldable pub expand : List (WireEvent T E) → List (Event T E)
  unfolding normalize_wire_event
  expand [] = []
  expand (w ∷ ws) = follow (normalize_wire_event w) ++ expand ws

  -- What is left of an event on the wire: a stream that failed as `Empty` just ends.
  abbrev pub settle : Event T E → Event T E
  settle (Event.error empty) = Event.complete
  settle e = e

  abbrev pub events : Script T E → List (Event T E)
  events [] = []
  events (pending ∷ s) = events s
  events (ready e ∷ s) = e ∷ events s

  abbrev pub look_events : Option (Event T E) → List (Event T E)
  look_events none = []
  look_events (some e) = e ∷ []

  abbrev folding : Option (Event T E) → Script T E → Bool → WireFolding T E
  folding look s t = record { source = record { script = s; terminated = t }; look_ahead = look }

  abbrev Yields : ℕ → WireFolding T E → List (Event T E) → Type (ℓ ⊔ κ)
  Yields fuel w es =
      (ws : List (WireEvent T E)) × (wires fuel w ≡ some ws) × (expand ws ≡ map settle es)

  -- The conversion to the wire and back, for one event.
  normalize-from_event : (e : Event T E) → normalize_wire_event (from_event e) ≡ (settle e, none)
  unfolding normalize_wire_event from_event
  normalize-from_event (Event.next v) = refl
  normalize-from_event Event.complete = refl
  normalize-from_event (Event.error (business e)) = refl
  normalize-from_event (Event.error (technical e)) = refl
  normalize-from_event (Event.error empty) = refl

  -- One polled answer, and what the rest of the fold yields.
  abbrev YieldsFrom :
      ℕ → Poll (Option (WireEvent T E)) × WireFolding T E → List (Event T E) → Type (ℓ ⊔ κ)
  YieldsFrom fuel r es =
      (ws : List (WireEvent T E)) × (collected r.0 (wires fuel r.1) ≡ some ws)
      × (expand ws ≡ map settle es)

  -- A sample in front of what the rest yields.
  Yields-cons :
      (fuel : ℕ) (e : WireEvent T E) (w : WireFolding T E) (front rest : List (Event T E))
      → follow (normalize_wire_event e) ≡ map settle front
      → Yields fuel w rest
      → YieldsFrom fuel (ready (some e), w) (front ++ rest)
  unfolding expand
  Yields-cons fuel e w front rest h (ws, p, q) =
      (e ∷ ws, rw p, rw (h, q) (sym (map-append settle front rest)))

  folded :
      (fuel : ℕ)
      → ((look : Option (Event T E)) (s : Script T E) (t : Bool)
          → length s + length (look_events look) < fuel
          → Yields fuel (folding look s t) (look_events look ++ events s))
      → (e : Event T E) (s : Script T E) (t : Bool) → length s < fuel
      → YieldsFrom fuel (fold_event e (record { script = s; terminated = t })) (e ∷ events s)
  unfolding poll_next wires normalize_wire_event from_event
  folded fuel more (Event.next v) [] t h =
      Yields-cons fuel _ _ (Event.next v ∷ []) [] refl (more none [] t (omega arith))
  folded fuel more (Event.next v) (pending ∷ s) t h =
      Yields-cons fuel _ _ (Event.next v ∷ []) (events s) refl (more none s t (omega arith))
  folded fuel more (Event.next v) (ready Event.complete ∷ s) t h =
      Yields-cons fuel _ _ (Event.next v ∷ Event.complete ∷ []) (events s) refl
        (more none s true (omega arith))
  folded fuel more (Event.next v) (ready (Event.next u) ∷ s) t h =
      Yields-cons fuel _ _ (Event.next v ∷ []) (Event.next u ∷ events s) refl
        (more (some (Event.next u)) s t (omega arith))
  folded fuel more (Event.next v) (ready (Event.error u) ∷ s) t h =
      Yields-cons fuel _ _ (Event.next v ∷ []) (Event.error u ∷ events s) refl
        (more (some (Event.error u)) s true (omega arith))
  folded fuel more e s t h =
      Yields-cons fuel (from_event e) _ (e ∷ []) (events s) (ap follow (normalize-from_event e))
        (more none s t (omega arith))

  yields :
      (fuel : ℕ) (look : Option (Event T E)) (s : Script T E) (t : Bool)
      → length s + length (look_events look) < fuel
      → Yields fuel (folding look s t) (look_events look ++ events s)
  unfolding wires expand
  yields zero look s t h = elim h [ ]
  yields (suc fuel) none [] t h = ([], refl, refl)
  yields (suc fuel) none (pending ∷ s) t h = yields fuel none s t (omega arith)
  yields (suc fuel) none (ready e ∷ s) t h = folded fuel (yields fuel) e s _ (omega arith)
  yields (suc fuel) (some e) s t h = folded fuel (yields fuel) e s t (omega arith)

  -- Whatever the polls of the source answer and when, the fold ends, and what its samples expand to
  -- on the consumer's side are the events of the source, in order, none lost and none doubled; only
  -- an `Empty` failure arrives as a normal end. Fuel for one poll more than the source answers is
  -- enough.
  pub wires-expand :
      (s : Script T E) (fuel : ℕ)
      → length s < fuel
      → (ws : List (WireEvent T E)) × (wires fuel (new (record { script = s; terminated = false }))
          ≡ some ws)
        × (expand ws ≡ map settle (events s))
  wires-expand s fuel h = yields fuel none s false (omega arith)
