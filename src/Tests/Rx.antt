-- ===== src/Tests/Rx.antt =====
-- Runs of the stream readers.
use ice_rpc.Common.{ℕ, true, false, []}
use ice_rpc.Rx.Stream.{Observable}
use ice_rpc.Tests.Samples.{two_values}

abbrev source : Observable ℕ ℕ
source = record { script = two_values; terminated = false }

abbrev ended : Observable ℕ ℕ
ended = record { script = []; terminated = true }
