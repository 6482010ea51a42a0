-- ===== src/Common/Words.antt =====
-- `static_cast<std::uint64_t>` of a signed number, and unsigned subtraction with its wrap-around.
use Prim.Native.Nat.{ℕ, suc, ◌+◌, ◌-◌, ◌%◌, ◌^◌, ◌<◌}
use mathlib.Core.Path.{◌≡◌}
use native.Mathlib.Omega.{arith}
use dawn_dock.Common.Tests.{ltb, if◌then◌else◌}
use dawn_dock.Common.Int.{ℤ, pos, negsuc, ◌-ℤ◌, ◌≤ℤ◌, IsInt64}

abbrev pub word64 : ℤ → ℕ
word64 (pos n) = n % 2 ^ 64
word64 (negsuc n) = (2 ^ 64 - suc n % 2 ^ 64) % 2 ^ 64

abbrev pub sub64 : ℕ → ℕ → ℕ
sub64 a b = (a + 2 ^ 64 - b) % 2 ^ 64

-- `std::bit_cast` back to the signed number.
abbrev pub signed64 : ℕ → ℤ
signed64 w = if ltb w (2 ^ 63) then pos w else negsuc (2 ^ 64 - w - 1)

pub signed64-word64 : (z : ℤ) → IsInt64 z → signed64 (word64 z) ≡ z
signed64-word64 z h = ground arith

pub word64-lt : (z : ℤ) → word64 z < 2 ^ 64
word64-lt z = ground arith

-- For two signed numbers in order the unsigned difference is the true one.
pub sub64-word64 :
    (now start : ℤ)
    → IsInt64 now
    → IsInt64 start
    → start ≤ℤ now
    → pos (sub64 (word64 now) (word64 start)) ≡ now -ℤ start
unfolding ◌-ℤ◌
sub64-word64 now start hn hs h = ground arith
