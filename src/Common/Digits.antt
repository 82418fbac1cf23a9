-- ===== src/Common/Digits.antt =====
-- Numbers as bytes and as digits, the way the standard library writes them.
use Prim.Native.Nat.{ℕ, zero, suc, ◌+◌, ◌*◌, ◌/◌, ◌%◌, ◌^◌, ◌<◌}
use native.Mathlib.Nat.{pow-suc}
use mathlib.Core.Path.{◌≡◌, refl, ap}
use mathlib.Core.List.{List, [], ◌∷◌, ◌++◌}
use native.Mathlib.Omega.{arith}
use ice_rpc.Common.Lists.{length, length-append, All, All-append}
use ice_rpc.Common.Tests.{ltb, if◌then◌else◌}
use ice_rpc.Common.Bytes.{IsByte}

-- `to_be_bytes` of a number of k bytes.
unfoldable pub be_bytes : ℕ → ℕ → List ℕ
be_bytes zero n = []
be_bytes (suc k) n = be_bytes k (n / 256) ++ (n % 256) ∷ []

-- Decimal digits, k at most, with no leading zero.
unfoldable pub decimal : ℕ → ℕ → List ℕ
decimal zero n = []
decimal (suc k) n =
    let more = decimal k (n / 10) in
    if ltb n 10 then (b'0' + n) ∷ [] else more ++ (b'0' + n % 10) ∷ []

pub length-be_bytes : (k n : ℕ) → length (be_bytes k n) ≡ k
unfolding be_bytes
length-be_bytes zero n = refl
length-be_bytes (suc k) n =
    omega (arith, length-append (be_bytes k (n / 256)) (n % 256 ∷ []), length-be_bytes k (n / 256))

pub be_bytes-IsByte : (k n : ℕ) → All IsByte (be_bytes k n)
unfolding be_bytes
be_bytes-IsByte zero n = tt
be_bytes-IsByte (suc k) n =
    All-append IsByte (be_bytes k (n / 256)) _ (be_bytes-IsByte k (n / 256)) (omega arith)

of_be_from : ℕ → List ℕ → ℕ
of_be_from acc [] = acc
of_be_from acc (b ∷ bs) = of_be_from (acc * 256 + b) bs

of_be_from-append :
    (acc : ℕ) (bs : List ℕ) (b : ℕ) → of_be_from acc (bs ++ b ∷ []) ≡ of_be_from acc bs * 256 + b
unfolding of_be_from
of_be_from-append acc [] b = refl
of_be_from-append acc (x ∷ bs) b = of_be_from-append (acc * 256 + x) bs b

of_be_from-be_bytes : (k n : ℕ) → n < 256 ^ k → of_be_from 0 (be_bytes k n) ≡ n
unfolding of_be_from be_bytes
of_be_from-be_bytes zero n h = omega arith
of_be_from-be_bytes (suc k) n h = omega (
  arith,
  of_be_from-append 0 (be_bytes k (n / 256)) (n % 256),
  of_be_from-be_bytes k (n / 256) (omega (arith, pow-suc 256 k)),
)

-- Two numbers that fit and have the same bytes are the same.
pub be_bytes-injective :
    (k m n : ℕ) → m < 256 ^ k → n < 256 ^ k → be_bytes k m ≡ be_bytes k n → m ≡ n
be_bytes-injective k m n h j e =
    omega (arith, of_be_from-be_bytes k m h, of_be_from-be_bytes k n j, ap (of_be_from 0) e)
