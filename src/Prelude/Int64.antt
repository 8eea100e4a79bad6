-- ===== src/Prelude/Int64.antt =====
-- Go's `int64` tests on sums of counters that are not negative. A counter is the exact number; the
-- sum that the test computes wraps at 2 ^ 64 and is negative from 2 ^ 63 on.
use Prim.Native.Nat.{ℕ, ◌%◌, ◌^◌, ◌<◌}
use mathlib.Core.Path.{◌≡◌}
use mathlib.Core.Bool.{Bool, ◌&&◌}
use native.Mathlib.Omega.{arith}
use tappet.Prelude.Tests.{ltb}

-- `sum > limit`, for a limit that is not negative.
unfoldable pub gt64 : ℕ → ℕ → Bool
gt64 sum limit = let w = sum % 2 ^ 64 in ltb limit w && ltb w (2 ^ 63)

pub gt64_small : (sum limit : ℕ) → sum < 2 ^ 63 → gt64 sum limit ≡ ltb limit sum
unfolding gt64
gt64_small sum limit h = ground arith
