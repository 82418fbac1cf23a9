-- ===== src/Transport/Hub/Sends.antt =====
-- server.rs: what emitting samples does to the hub, and what it leaves alone.
use ice_rpc.Common.{
  ℕ, ◌+◌, ◌%◌, ◌^◌, ◌≡◌, refl, ap, sym, ◌∙◌, Bool, true, false, List, [], ◌∷◌, ◌++◌, map,
  append-nil, append_assoc, subst, if◌then◌else◌, Bool-cases, inl, inr, All,
}
use ice_rpc.Wire.Kind.{EventKind, as_u8}
use ice_rpc.Wire.Header.{RpcHeader, response_from, with_seq, trace}
use ice_rpc.Transport.Codec.{Bytes}
use ice_rpc.Transport.Hub.{Bus, ResponseHub, response_header, publish, publish_each, placeholder}
use ice_rpc.Transport.Hub.Numbering.{Answers, Sample}

-- A payload as it travels: at least one byte.
abbrev pub at_least_a_byte : Bytes → Bytes
at_least_a_byte [] = 0 ∷ []
at_least_a_byte (b ∷ bs) = b ∷ bs

-- The kind bytes and the payloads that the bus takes, up to the first sample that it refuses.
abbrev pub delivered : Bus → ℕ → List (EventKind × Bytes) → List (ℕ × Bytes)
delivered bus seq [] = []
delivered bus seq ((kind, payload) ∷ samples) =
    let rest = delivered bus ((seq + 1) % 2 ^ 64) samples in
    if bus.delivers seq then (as_u8 kind, at_least_a_byte payload) ∷ rest else []

-- These samples, as far as they are delivered, are added to what is published, under headers that
-- answer the request, and the registry, the fired tokens and the next token are as they were.
abbrev pub Sends : Bus → RpcHeader → List (EventKind × Bytes) → ResponseHub → ResponseHub → Type 0
Sends bus request samples hub hub' =
    (new : List Sample) × (hub'.published ≡ hub.published ++ new)
    × (map (λ s. (s.0.event_kind, s.1)) new ≡ delivered bus hub.seq samples)
    × All (λ s. Answers request s.0) new
    × (hub'.calls ≡ hub.calls)
    × (hub'.fired ≡ hub.fired)
    × (hub'.next_token ≡ hub.next_token)

placeholder_lem : (payload : Bytes) → placeholder payload ≡ at_least_a_byte payload
placeholder_lem [] = refl
placeholder_lem (b ∷ bs) = refl

module _ (bus : Bus) (request : RpcHeader) where
  pub publish_each-Sends :
      (samples : List (EventKind × Bytes)) (hub : ResponseHub)
      → Sends bus request samples hub (publish_each bus request samples hub).0
  unfolding publish_each publish response_header response_from with_seq trace
  publish_each-Sends [] hub = ([], sym (append-nil hub.published), refl, tt, refl, refl, refl)
  publish_each-Sends ((kind, payload) ∷ samples) hub = elim (Bool-cases (bus.delivers hub.seq)) [
    | inl e ↦
        let header : RpcHeader = response_header bus hub kind request in
        let sample : Sample = (header, placeholder payload) in
        let hub' : ResponseHub = record hub {
          seq = (hub.seq + 1) % 2 ^ 64;
          published = hub.published ++ sample ∷ [];
        } in
        let (new, appended, kinds, answers, calls, fired, next) = publish_each-Sends samples hub' in
        rw e (
          sample ∷ new,
          appended ∙ append_assoc hub.published (sample ∷ []) new,
          ap (λ b. (as_u8 kind, b) ∷ map (λ s. (s.0.event_kind, s.1)) new) (placeholder_lem payload)
              ∙ ap (λ r. (as_u8 kind, at_least_a_byte payload) ∷ r) kinds,
          (
            record {
              same_call = refl;
              same_service = refl;
              same_trace = refl;
              no_method = refl;
              spoken = refl;
            },
            answers,
          ),
          calls,
          fired,
          next,
        )
    | inr e ↦ rw e ([], sym (append-nil hub.published), refl, tt, refl, refl, refl)
  ]

  -- One sample alone.
  pub publish-Sends :
      (kind : EventKind) (payload : Bytes) (hub : ResponseHub)
      → Sends bus request ((kind, payload) ∷ []) hub (publish bus kind request payload hub).0
  unfolding publish_each
  publish-Sends kind payload hub =
      subst (Sends bus request ((kind, payload) ∷ []) hub)
        (one (publish bus kind request payload hub)) (publish_each-Sends ((kind, payload) ∷ []) hub)
    where
      one :
          (r : ResponseHub × Bool)
          → let x : ResponseHub × Bool = if r.1 then (r.0, true) else (r.0, false) in x.0 ≡ r.0
      one (hub', true) = refl
      one (hub', false) = refl
