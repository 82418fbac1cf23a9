-- ===== src/Transport/Server/Registry.antt =====
-- server.rs: the registry of the calls in flight against the calls that are alive, over any sequence
-- of samples and polls.
use ice_rpc.Common.{
  ℕ, ◌≡◌, refl, ap, ◌∙◌, ◌⊎◌, inl, inr, Option, none, some, List, [], ◌∷◌, ◌++◌, Bool-cases, All,
  ==_refl,
}
use mathlib.Core.Path.{subst}
use ice_rpc.Rx.Event.{RpcError}
use ice_rpc.Wire.Header.{RpcHeader}
use ice_rpc.Transport.Codec.{Bytes}
use ice_rpc.Transport.Dispatcher.{ServiceDispatcher}
use ice_rpc.Transport.Hub.{
  Bus, ResponseHub, CancellableCall, new_hub, same_id, token_of, without, cancel, unregister,
  poll_call, drop_call,
}
use ice_rpc.Transport.Hub.Tokens.{same_id_refl, token_of-without}
use ice_rpc.Wire.Kind.{EventKind}
use ice_rpc.Wire.Header.{kind_of}
use ice_rpc.Common.{if◌then◌else◌}
use ice_rpc.Transport.Server.{Started, nothing, detached, cancellable, handle_request}
use ice_rpc.Transport.Server.Effects.{
  Registers, Registers-handle_request, LeavesOrEnds, calls-poll_call,
}

-- A Cancel sample that finds its call in the registry starts nothing, publishes nothing, and ends the
-- call at its next poll: the handler runs no further, nothing more is published, the call's
-- correlation id finds no token any more, and every other id finds what it found before.
pub cancelled_call :
    (bus : Bus) (encode : RpcError → Option Bytes) (table : List (ℕ × ServiceDispatcher))
    (h : RpcHeader) (payload : Bytes) (call : CancellableCall) (other : List ℕ) (hub : ResponseHub)
    → kind_of h ≡ EventKind.cancel
    → h.correlation_id ≡ call.request.correlation_id
    → token_of call.request.correlation_id hub.calls ≡ some call.token
    → let told = handle_request bus encode table h payload hub in
      let ended = poll_call bus call told.0 in
      (told.1 ≡ nothing)
      × (told.0.published ≡ hub.published)
      × (ended.1 ≡ none)
      × (ended.0.published ≡ hub.published)
      × (token_of call.request.correlation_id ended.0.calls ≡ none)
      × (token_of other ended.0.calls
          ≡ (if same_id call.request.correlation_id other then none else token_of other hub.calls))
unfolding handle_request cancel poll_call drop_call unregister
cancelled_call bus encode table h payload call other hub k own found =
    let cid = call.request.correlation_id in
    let gone : token_of cid (without cid hub.calls) ≡ none =
      token_of-without cid cid hub.calls
      ∙ ap (λ b. if b then none else token_of cid hub.calls) (same_id_refl cid) in
    rw (k, own, found, ==_refl call.token)
      (refl, refl, refl, refl, gone, token_of-without cid other hub.calls)

-- The provider's side of a channel: the hub, and the registered calls that have not ended.
pub record Channel : Type 0 where
  pub hub : ResponseHub
  pub live : List CancellableCall

abbrev pub absorb : ResponseHub × Started → List CancellableCall → Channel
absorb (hub, cancellable call) live = record { hub = hub; live = call ∷ live }
absorb (hub, _) live = record { hub = hub; live = live }

abbrev pub resume :
    ResponseHub × Option CancellableCall → List CancellableCall → List CancellableCall → Channel
resume (hub, none) before after = record { hub = hub; live = before ++ after }
resume (hub, some call) before after = record { hub = hub; live = before ++ call ∷ after }

module _ (bus : Bus) (encode : RpcError → Option Bytes) (table : List (ℕ × ServiceDispatcher)) where
  -- A sample arrives, or one of the live calls is polled.
  pub data Step (s : Channel) : Channel → Type 0 where
    receive :
        (h : RpcHeader) (payload : Bytes)
        → Step s (absorb (handle_request bus encode table h payload s.hub) s.live)
    poll :
        (before after : List CancellableCall) (call : CancellableCall)
        → s.live ≡ before ++ call ∷ after
        → Step s (resume (poll_call bus call s.hub) before after)

  pub data Reach : Channel → Type 0 where
    here : Reach (record { hub = new_hub; live = [] })
    more : {s t : Channel} → Reach s → Step s t → Reach t

-- A live call stands behind a registered id and token.
abbrev pub HasCall : List CancellableCall → List ℕ × ℕ → Type 0
HasCall [] e = ⊥
HasCall (c ∷ cs) e = ((c.request.correlation_id ≡ e.0) × (c.token ≡ e.1)) ⊎ HasCall cs e

abbrev pub IsTracked : Channel → Type 0
IsTracked s = All (HasCall s.live) s.hub.calls

All-without :
    (P : List ℕ × ℕ → Type 0) (cid : List ℕ) (calls : List (List ℕ × ℕ))
    → All P calls
    → All P (without cid calls)
unfolding without
All-without P cid [] a = tt
All-without P cid ((k, t) ∷ calls) a = elim (Bool-cases (same_id k cid)) [
  | inl e ↦ rw e (All-without P cid calls a.1)
  | inr e ↦ rw e (a.0, All-without P cid calls a.1)
]

All-map :
    (P Q : List ℕ × ℕ → Type 0) (calls : List (List ℕ × ℕ))
    → ((e : List ℕ × ℕ) → P e → Q e)
    → All P calls
    → All Q calls
All-map P Q [] f a = tt
All-map P Q (e ∷ calls) f a = (f e a.0, All-map P Q calls f a.1)

HasCall-split :
    (before after : List CancellableCall) (c : CancellableCall) (e : List ℕ × ℕ)
    → HasCall (before ++ c ∷ after) e
    → ((c.request.correlation_id ≡ e.0) × (c.token ≡ e.1)) ⊎ HasCall (before ++ after) e
HasCall-split [] after c e h = h
HasCall-split (b ∷ before) after c e (inl h) = inr (inl h)
HasCall-split (b ∷ before) after c e (inr h) = elim (HasCall-split before after c e h) [
  | inl p ↦ inl p
  | inr q ↦ inr (inr q)
]

HasCall-joined :
    (before after : List CancellableCall) (c : CancellableCall) (e : List ℕ × ℕ)
    → ((c.request.correlation_id ≡ e.0) × (c.token ≡ e.1)) ⊎ HasCall (before ++ after) e
    → HasCall (before ++ c ∷ after) e
HasCall-joined [] after c e h = h
HasCall-joined (b ∷ before) after c e (inl h) = inr (HasCall-joined before after c e (inl h))
HasCall-joined (b ∷ before) after c e (inr (inl h)) = inl h
HasCall-joined (b ∷ before) after c e (inr (inr h)) = inr (HasCall-joined before after c e (inr h))

-- When the guard of a call takes its id out, no entry of the call is left.
without-HasCall :
    (before after : List CancellableCall) (c : CancellableCall) (calls : List (List ℕ × ℕ))
    → All (HasCall (before ++ c ∷ after)) calls
    → All (HasCall (before ++ after)) (without c.request.correlation_id calls)
unfolding without
without-HasCall before after c [] a = tt
without-HasCall before after c ((k, t) ∷ calls) a =
    elim (Bool-cases (same_id k c.request.correlation_id)) [
      | inl e ↦ rw e (without-HasCall before after c calls a.1)
      | inr e ↦ rw e (
        elim (HasCall-split before after c (k, t) a.0) [
          | inl same ↦ cc (
            e,
            ap (λ x. same_id x c.request.correlation_id) same.0,
            same_id_refl c.request.correlation_id,
          )
          | inr other ↦ other
        ],
        without-HasCall before after c calls a.1,
      )
    ]

absorb-IsTracked :
    (r : ResponseHub × Started) (hub : ResponseHub) (live : List CancellableCall)
    → Registers hub r
    → All (HasCall live) hub.calls
    → IsTracked (absorb r live)
absorb-IsTracked (hub', cancellable c) hub live h a = rw h (
  inl (refl, refl),
  All-without _ c.request.correlation_id hub.calls
      (All-map (HasCall live) (HasCall (c ∷ live)) hub.calls (λ e p. inr p) a),
)
absorb-IsTracked (hub', nothing) hub live h a = rw h a
absorb-IsTracked (hub', detached header task) hub live h a = rw h a

resume-IsTracked :
    (r : ResponseHub × Option CancellableCall) (hub : ResponseHub)
    (before after : List CancellableCall) (c : CancellableCall)
    → LeavesOrEnds c hub r
    → All (HasCall (before ++ c ∷ after)) hub.calls
    → IsTracked (resume r before after)
resume-IsTracked (hub', none) hub before after c h a =
    rw h (without-HasCall before after c hub.calls a)
resume-IsTracked (hub', some d) hub before after c h a = rw h.0 (
    All-map (HasCall (before ++ c ∷ after)) (HasCall (before ++ d ∷ after)) hub.calls
      (λ e p. HasCall-joined before after d e (carried e (HasCall-split before after c e p))) a)
  where
    carried :
        (e : List ℕ × ℕ)
        → ((c.request.correlation_id ≡ e.0) × (c.token ≡ e.1)) ⊎ HasCall (before ++ after) e
        → ((d.request.correlation_id ≡ e.0) × (d.token ≡ e.1)) ⊎ HasCall (before ++ after) e
    carried e (inl (same, token)) = inl (ap (λ r. r.correlation_id) h.1 ∙ same, h.2 ∙ token)
    carried e (inr other) = inr other

module _ (bus : Bus) (encode : RpcError → Option Bytes) (table : List (ℕ × ServiceDispatcher)) where
  Step-IsTracked : {s t : Channel} → Step bus encode table s t → IsTracked s → IsTracked t
  Step-IsTracked {s} (receive h payload) a =
      absorb-IsTracked (handle_request bus encode table h payload s.hub) s.hub s.live
        (Registers-handle_request bus encode table h payload s.hub) a
  Step-IsTracked {s} (poll before after call e) a =
      resume-IsTracked (poll_call bus call s.hub) s.hub before after call
        (calls-poll_call bus encode call s.hub) (subst (λ live. All (HasCall live) s.hub.calls) e a)

  -- Over any sequence of samples and polls, every registered id belongs to a call that is still
  -- alive, with its token.
  pub Reach-IsTracked : {s : Channel} → Reach bus encode table s → IsTracked s
  unfolding new_hub
  Reach-IsTracked here = tt
  Reach-IsTracked (more r st) = Step-IsTracked st (Reach-IsTracked r)

  emptied : (calls : List (List ℕ × ℕ)) → All (HasCall []) calls → calls ≡ []
  emptied [] a = refl
  emptied (e ∷ calls) a = absurd a.0

  -- The registry leaks nothing: over any sequence of samples and polls, whenever no call is alive, it
  -- is empty.
  pub Reach-no_leak : {s : Channel} → Reach bus encode table s → s.live ≡ [] → s.hub.calls ≡ []
  Reach-no_leak {s} r e =
      emptied s.hub.calls (subst (λ live. All (HasCall live) s.hub.calls) e (Reach-IsTracked r))
