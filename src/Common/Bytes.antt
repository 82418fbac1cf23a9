-- ===== src/Common/Bytes.antt =====
-- Facts about bytes that are checked at every value.
use Prim.Native.Nat.{ℕ, zero, suc, ◌<◌}
use mathlib.Core.Path.{◌≡◌}
use mathlib.Core.Bool.{Bool, true, false}
use ice_rpc.Common.Tests.{if◌then◌else◌}
use native.Mathlib.Omega.{arith}

-- Whether a test says yes to each number under a bound, from the largest down.
unfoldable pub passes_under : (ℕ → Bool) → ℕ → Bool
passes_under test zero = true
passes_under test (suc bound) =
    let smaller = passes_under test bound in if test bound then smaller else false

pub passed :
    (test : ℕ → Bool) (bound b : ℕ) → b < bound → passes_under test bound ≡ true → test b ≡ true
unfolding passes_under
passed test zero b below run = absurd (omega arith)
passed test (suc bound) b below run = ground (arith, passed test bound b)

abbrev pub IsByte : ℕ → Type 0
IsByte b = b < 256
