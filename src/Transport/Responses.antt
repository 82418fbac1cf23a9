-- ===== src/Transport/Responses.antt =====
-- ice-rpc/src/transport/bridge.rs: from the stream of a handler to the samples that are published.
pub mod Publishing
use ice_rpc.Common.{
  ℕ, zero, suc, Bool, true, false, Option, none, some, List, [], ◌∷◌, ◌++◌, if◌then◌else◌,
}
use ice_rpc.Rx.Stream.{Poll, pending, ready}
use ice_rpc.Wire.Kind.{EventKind}
use ice_rpc.Wire.Event.{WireEvent, next, complete, complete_with, error, rpc_error, kind}
use ice_rpc.Transport.Codec.{Bytes, Codec}
use ice_rpc.Transport.Fold.{WireFolding, poll_wire}

-- The trait: where the samples go, and whether the stream is to go on.
pub record ResponseEmitter {ℓ} (S : Type ℓ) : Type ℓ where
  pub emit : S → EventKind → Bytes → S × Bool

-- `CollectEmitter`: keeps every sample, and never asks to stop.
abbrev pub collect_emitter : ResponseEmitter (List (EventKind × Bytes))
collect_emitter = record { emit = λ samples k b. (samples ++ (k, b) ∷ [], true) }

module _ {ℓ κ} {T : Type ℓ} {E : Type κ} (c : Codec T E) where
  -- A technical error travels bare, anything else as a wire event.
  unfoldable pub framed : WireEvent T E → EventKind × Option Bytes
  unfolding kind
  framed (rpc_error e) = (EventKind.rpc_error, c.encode_rpc_error e)
  framed other = (kind other, c.encode_wire other)

  module _ {σ} {S : Type σ} (emitter : ResponseEmitter S) where
    abbrev pub publish_framed : EventKind × Option Bytes → S → (S → Option S) → Option S
    publish_framed (k, none) s rest = some s
    publish_framed (k, some bytes) s rest =
        let (s', more) = emitter.emit s k bytes in
        let further = rest s' in if more then further else some s'

    -- What one answer of the fold makes the loop do.
    abbrev pub respond : Poll (Option (WireEvent T E)) → S → (S → Option S) → Option S
    respond pending s rest = rest s
    respond (ready none) s rest = some s
    respond (ready (some wire)) s rest = publish_framed (framed wire) s rest

    -- The loop over the samples; `none` when the fuel for the polls is out.
    unfoldable pub observable_to_responses : ℕ → WireFolding T E → S → Option S
    unfolding poll_wire framed
    observable_to_responses zero w s = none
    observable_to_responses (suc fuel) w s =
        let (polled, w') = poll_wire w in respond polled s (observable_to_responses fuel w')
