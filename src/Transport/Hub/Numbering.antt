-- ===== src/Transport/Hub/Numbering.antt =====
-- server.rs: what a call's polls publish answers its request, under rising sequence numbers.
use ice_rpc.Common.{
  ℕ, suc, ◌+◌, ◌^◌, ◌≤◌, ◌<◌, ◌≡◌, refl, sym, ap, ◌∙◌, arith, Bool, true, false, Option, none, some,
  List, [], ◌∷◌, ◌++◌, append-nil, append_assoc, length, Bool-cases, inl, inr, All, All-append,
}
use ice_rpc.Wire.Kind.{EventKind}
use ice_rpc.Wire.Header.{RpcHeader, trace, protocol_version}
use ice_rpc.Transport.Codec.{Bytes}
use ice_rpc.Transport.Dispatcher.{Task, done, yields}
use ice_rpc.Transport.Hub.{
  Bus, ResponseHub, CancellableCall, response_header, publish, publish_each, poll_task, poll_call,
  drop_call, placeholder, is_cancelled, after_poll, settle_call, unregister,
}

-- A header by which the caller finds its call again: same correlation id, service and trace, and no
-- method.
pub record Answers (request h : RpcHeader) : Type 0 where
  pub same_call : h.correlation_id ≡ request.correlation_id
  pub same_service : h.service_id ≡ request.service_id
  pub same_trace : trace h ≡ trace request
  pub no_method : h.method_id ≡ 0
  pub spoken : h.protocol ≡ protocol_version

abbrev pub Sample : Type 0
Sample = RpcHeader × Bytes

-- The sequence numbers rise from `low` on and stay below `high`.
abbrev pub Rising : ℕ → List Sample → ℕ → Type 0
Rising low [] high = low ≤ high
Rising low (s ∷ ss) high = (low ≤ s.0.seq) × Rising (suc s.0.seq) ss high

Rising-low : (a b : ℕ) (ss : List Sample) (high : ℕ) → a ≤ b → Rising b ss high → Rising a ss high
Rising-low a b [] high h r = omega arith
Rising-low a b (s ∷ ss) high h r = (omega arith, r.1)

-- What was published between two states of the hub, all of it for one request.
pub record Published (request : RpcHeader) (hub hub' : ResponseHub) : Type 0 where
  pub new : List Sample
  pub appended : hub'.published ≡ hub.published ++ new
  pub answers : All (λ s. Answers request s.0) new
  pub rising : Rising hub.seq new hub'.seq

nothing_new :
    (request : RpcHeader) (hub hub' : ResponseHub)
    → hub'.published ≡ hub.published
    → hub.seq ≤ hub'.seq
    → Published request hub hub'
nothing_new request hub hub' p q = record {
  new = [];
  appended = p ∙ sym (append-nil hub.published);
  answers = tt;
  rising = q;
}

Rising-append :
    (low mid high : ℕ) (xs ys : List Sample)
    → Rising low xs mid
    → Rising mid ys high
    → Rising low (xs ++ ys) high
Rising-append low mid high [] ys r q = Rising-low low mid ys high r q
Rising-append low mid high (x ∷ xs) ys r q = (r.0, Rising-append (suc x.0.seq) mid high xs ys r.1 q)

chained :
    {request : RpcHeader} {a b c : ResponseHub}
    → Published request a b
    → Published request b c
    → Published request a c
chained {request} {a} {b} {c} p q = record {
  new = p.new ++ q.new;
  appended = q.appended ∙ ap (λ xs. xs ++ q.new) p.appended ∙ append_assoc a.published p.new q.new;
  answers = All-append (λ s. Answers request s.0) p.new q.new p.answers q.answers;
  rising = Rising-append a.seq b.seq c.seq p.new q.new p.rising q.rising;
}

-- The hub's other fields play no part.
unregistered :
    (request : RpcHeader) (cid : List ℕ) (a b : ResponseHub)
    → Published request a b
    → Published request a (unregister cid b)
unfolding unregister
unregistered request cid a b p = record {
  new = p.new;
  appended = p.appended;
  answers = p.answers;
  rising = p.rising;
}

after_poll-hub : (r : ResponseHub × Bool) (next : Option Task) → (after_poll r next).0 ≡ r.0
after_poll-hub (hub, true) next = refl
after_poll-hub (hub, false) next = refl

settled :
    (call : CancellableCall) (hub : ResponseHub) (r : ResponseHub × Option Task)
    → Published call.request hub r.0
    → Published call.request hub (settle_call call r).0
unfolding drop_call
settled call hub (hub', none) p = unregistered call.request call.request.correlation_id hub hub' p
settled call hub (hub', some task) p = elim (Bool-cases (is_cancelled call.token hub'.fired)) [
  | inl e ↦ rw e (unregistered call.request call.request.correlation_id hub hub' p)
  | inr e ↦ rw e p
]

abbrev pub samples_of : Task → List (EventKind × Bytes)
samples_of (done samples) = samples
samples_of (yields samples next) = samples

module _ (bus : Bus) where
  publish_lem :
      (kind : EventKind) (request : RpcHeader) (payload : Bytes) (hub : ResponseHub)
      → suc hub.seq < 2 ^ 64
      → Published request hub (publish bus kind request payload hub).0
        × ((publish bus kind request payload hub).0.seq ≡ suc hub.seq)
  unfolding publish trace
  publish_lem kind request payload hub h = elim (Bool-cases (bus.delivers hub.seq)) [
    | inl e ↦ rw e (
      record {
        new = (response_header bus hub kind request, placeholder payload) ∷ [];
        appended = refl;
        answers = (
          record {
            same_call = refl;
            same_service = refl;
            same_trace = refl;
            no_method = refl;
            spoken = refl;
          },
          tt,
        );
        rising = (omega arith, omega arith);
      },
      omega arith,
    )
    | inr e ↦ rw e (nothing_new request hub _ refl (omega arith), omega arith)
  ]

  publish_each-Published :
      (request : RpcHeader) (samples : List (EventKind × Bytes)) (hub : ResponseHub)
      → hub.seq + length samples < 2 ^ 64
      → Published request hub (publish_each bus request samples hub).0
  unfolding publish_each
  publish_each-Published request [] hub h = nothing_new request hub hub refl (omega arith)
  publish_each-Published request ((kind, payload) ∷ samples) hub h =
      let (first, next_seq) = publish_lem kind request payload hub (omega arith) in
      let hub' : ResponseHub = (publish bus kind request payload hub).0 in
      elim (Bool-cases (publish bus kind request payload hub).1) [
        | inl e ↦ rw e (chained first (publish_each-Published request samples hub' (omega arith)))
        | inr e ↦ rw e first
      ]

  poll_task-Published :
      (request : RpcHeader) (task : Task) (hub : ResponseHub)
      → hub.seq + length (samples_of task) < 2 ^ 64
      → Published request hub (poll_task bus request task hub).0
  unfolding poll_task
  poll_task-Published request (done samples) hub h =
      rw (after_poll-hub (publish_each bus request samples hub) none)
        (publish_each-Published request samples hub h)
  poll_task-Published request (yields samples next) hub h =
      rw (after_poll-hub (publish_each bus request samples hub) (some next))
        (publish_each-Published request samples hub h)

  -- Whatever one poll of a call publishes answers the call's own request and carries rising sequence
  -- numbers from the hub's counter on, which it moves past them; nothing published before is lost.
  -- The counter is taken not to wrap within the poll.
  pub poll_call-Published :
      (call : CancellableCall) (hub : ResponseHub)
      → hub.seq + length (samples_of call.task) < 2 ^ 64
      → Published call.request hub (poll_call bus call hub).0
  unfolding poll_call drop_call
  poll_call-Published call hub h = elim (Bool-cases (is_cancelled call.token hub.fired)) [
    | inl e ↦ rw e (nothing_new call.request hub _ refl (omega arith))
    | inr e ↦ rw e (
        settled call hub (poll_task bus call.request call.task hub)
          (poll_task-Published call.request call.task hub h))
  ]
