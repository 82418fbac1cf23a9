-- ===== src/Transport/Undecodable.antt =====
-- ice-rpc/src/transport/bridge.rs: the answers to a request that its handler never sees. What is
-- logged is left out; the task that is handed back emits nothing more.
use ice_rpc.Common.{◌≡◌, refl, false, Option, none, some, [], ◌∷◌, ◌++◌, Bool}
use ice_rpc.Rx.Event.{Text, RpcError, Event, serialization_error, internal, technical}
use ice_rpc.Wire.Kind.{EventKind}
use ice_rpc.Wire.Event.{WireEvent, normalize_wire_event, is_terminal}
use ice_rpc.Transport.Codec.{Bytes, Codec, IsRoundTrip, IsTotal}
use ice_rpc.Transport.Responses.{ResponseEmitter, collect_emitter, framed}
use ice_rpc.Transport.Client.{ConsumerPorts, contains}
use ice_rpc.Transport.Dispatcher.{Task, done}
use ice_rpc.Transport.EndToEnd.{deliver, IsAwaited, dispatch_frame}

module _ {ℓ κ σ} {T : Type ℓ} {E : Type κ} {S : Type σ} (c : Codec T E)
    (emitter : ResponseEmitter S) where
  abbrev pub emit_bytes : Option Bytes → S → S × Bool
  emit_bytes none s = (s, false)
  emit_bytes (some bytes) s = emitter.emit s EventKind.rpc_error bytes

  unfoldable pub emit_rpc_error : RpcError → S → S × Bool
  emit_rpc_error e s = emit_bytes (c.encode_rpc_error e) s

  unfoldable pub reject_undecodable : S → S × Task
  unfolding emit_rpc_error
  reject_undecodable s = ((emit_rpc_error serialization_error s).0, done [])

  unfoldable pub reject_json_request : S → S
  unfolding emit_rpc_error
  reject_json_request s = (emit_rpc_error serialization_error s).0

  unfoldable pub reject_json_dispatch : Text → S → S
  unfolding emit_rpc_error
  reject_json_dispatch message s = (emit_rpc_error (internal message) s).0

  unfoldable pub reject_json_response : S → S
  unfolding emit_rpc_error
  reject_json_response s = (emit_rpc_error serialization_error s).0

-- A one-way call is dropped: the emitter is not touched.
unfoldable pub reject_undecodable_oneway : Task
reject_undecodable_oneway = done []

module _ {ℓ κ} {K : Type 0} {T : Type ℓ} {E : Type κ} (dec : Discrete K) (c : Codec T E) where
  -- Whatever technical error the bridge answers with, an awaited call reads exactly that error, and
  -- it ends the call; in particular a request that does not decode is answered by a serialization
  -- error. It holds of a codec that encodes every value and decodes what it encoded.
  pub emit_rpc_error-delivered :
      IsRoundTrip c
      → IsTotal c
      → (e : RpcError) (cid : K) (p : ConsumerPorts K T E) → IsAwaited dec c cid p
      → let q = deliver dec c cid (emit_rpc_error c collect_emitter e []).0 p in
        let undecoded = (reject_undecodable c collect_emitter []).0 in
        ((q.inbox cid).events ≡ (p.inbox cid).events ++ Event.error (technical e) ∷ [])
        × (contains dec cid q.handlers ≡ false)
        × (undecoded ≡ (emit_rpc_error c collect_emitter serialization_error []).0)
  unfolding emit_rpc_error reject_undecodable deliver framed normalize_wire_event is_terminal
  emit_rpc_error-delivered rt t e cid p a =
      let (b, h) = t.rpc_error_total e in
      let (sent, alive, kept) = dispatch_frame dec c rt cid (WireEvent.rpc_error e) b p h a in
      rw h (sent, kept, refl)
