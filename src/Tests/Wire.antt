-- ===== src/Tests/Wire.antt =====
-- Runs of the wire format: correlation ids, ids of services, kinds.
use ice_rpc.Common.{ℕ, ◌≡◌, refl, arith, List, [], ◌∷◌}
use ice_rpc.Common.Text.{codes}
use ice_rpc.Rx.Event.{timeout}
use ice_rpc.Wire.CorrelationId.{done, fmt_correlation_id, parse_correlation_id}
use ice_rpc.Wire.CorrelationId.RoundTrip.{parse-fmt}
use ice_rpc.Wire.CorrelationId.Bounds.{IsSound, parse-IsSound}
use ice_rpc.Wire.Event.{WireEvent}

abbrev cid : List ℕ
cid = 0 ∷ 0 ∷ 0 ∷ 0 ∷ 0 ∷ 1 ∷ 226 ∷ 64 ∷ 0 ∷ 0 ∷ 0 ∷ 0 ∷ 0 ∷ 0 ∷ 2 ∷ 255 ∷ []

abbrev pid : ℕ
pid = 4321

abbrev counter : ℕ
counter = 17

abbrev letter : ℕ
letter = 65

parse-fmt_example : parse_correlation_id (fmt_correlation_id cid) ≡ done cid
parse-fmt_example = parse-fmt cid refl (omega arith)

parse-IsSound_example : IsSound (parse_correlation_id (codes "0000000000000000000000000000000-"))
parse-IsSound_example = parse-IsSound (codes "0000000000000000000000000000000-")

abbrev timed_out : WireEvent ℕ ℕ
timed_out = WireEvent.rpc_error timeout

abbrev half : List ℕ
half = 0 ∷ 0 ∷ 0 ∷ 0 ∷ 0 ∷ 1 ∷ 226 ∷ 64 ∷ []

abbrev other_half : List ℕ
other_half = 0 ∷ 0 ∷ 0 ∷ 0 ∷ 0 ∷ 0 ∷ 2 ∷ 255 ∷ []
