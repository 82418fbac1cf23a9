-- ===== src/Tests/Transport.antt =====
-- Runs of a call from the handler's stream to the caller.
use native.Mathlib.Decide.{ℕ_discrete}
use ice_rpc.Common.{ℕ, ◌≡◌, refl, arith, false, some, List, [], ◌∷◌, map}
use ice_rpc.Rx.Event.{Event, next, complete}
use ice_rpc.Wire.Kind.{EventKind}
use ice_rpc.Wire.Event.{WireEvent}
use ice_rpc.Wire.Event
use ice_rpc.Transport.Fold.{WireFolding, new, wires}
use ice_rpc.Transport.Fold.Unfold.{expand, settle, events, wires-expand}
use ice_rpc.Transport.Codec.{Bytes}
use ice_rpc.Transport.Responses.{collect_emitter, observable_to_responses}
use ice_rpc.Transport.Client.{drop_stream}
use ice_rpc.Transport.EndToEnd.{until_terminal, frames, deliver, responses-delivered}
use ice_rpc.Transport.Calls.{abandoned}
use ice_rpc.Tests.Samples.{
  plain_codec, plain_codec-IsRoundTrip, plain_codec-IsTotal, waiting, two_values,
}

abbrev source : WireFolding ℕ ℕ
source = new (record { script = two_values; terminated = false })

responses-delivered_example :
    (samples : List (EventKind × Bytes)) × (observable_to_responses plain_codec collect_emitter 5
        source []
      ≡ some samples)
    × (((deliver ℕ_discrete plain_codec 9 samples waiting).inbox 9).events
        ≡ until_terminal (map settle (events two_values)))
unfolding ℕ_discrete
responses-delivered_example =
    responses-delivered ℕ_discrete plain_codec plain_codec-IsRoundTrip plain_codec-IsTotal
      two_values 5 9 waiting (omega arith) (refl, refl)

wires-expand_example :
    (ws : List (WireEvent ℕ ℕ)) × (wires 5 source ≡ some ws)
    × (expand ws ≡ map settle (events two_values))
wires-expand_example = wires-expand two_values 5 (omega arith)

abbrev value_and_end : List (Event ℕ ℕ)
value_and_end = next 10 ∷ next 20 ∷ complete ∷ []

abbrev value_and_end_wires : List (WireEvent ℕ ℕ)
value_and_end_wires = WireEvent.next 10 ∷ WireEvent.complete_with 20 ∷ []

abbrev one_value : List (WireEvent ℕ ℕ)
one_value = WireEvent.next 10 ∷ []

abandoned_example :
    let q =
      drop_stream ℕ_discrete 9 false
        (deliver ℕ_discrete plain_codec 9 (frames plain_codec one_value) waiting) in
    (q.cancels ≡ 9 ∷ []) × ((drop_stream ℕ_discrete 9 false q).cancels ≡ q.cancels)
unfolding ℕ_discrete Event.is_terminal
abandoned_example =
    abandoned ℕ_discrete plain_codec plain_codec-IsRoundTrip plain_codec-IsTotal 9 one_value waiting
      (refl, refl)
