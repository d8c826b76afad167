-- ===== src/Base/Int.antt =====
-- Signed integers over the native numbers, and the cast of a length to `i32`.
use Prim.Native.Nat.{ℕ, ◌-◌, ◌%◌, ◌^◌, ◌<◌}
use mathlib.Core.Path.{◌≡◌}
use native.Mathlib.Omega.{arith}
use plaid.Base.Tests.{ltb, if◌then◌else◌}

-- `negsuc n` is -(n + 1).
pub data ℤ : Type 0 where
  pos : ℕ → ℤ
  negsuc : ℕ → ℤ

abbrev pub i32_half : ℕ
i32_half = 2 ^ 31

abbrev pub i32_mod : ℕ
i32_mod = 2 ^ 32

-- `n as i32` of an unsigned length: the low 32 bits, read in two's complement.
unfoldable pub as_i32 : ℕ → ℤ
as_i32 n = let m = n % i32_mod in if ltb m i32_half then pos m else negsuc (i32_mod - 1 - m)

-- Below 2^31 the cast changes nothing.
pub as_i32_of_lt : (n : ℕ) → n < i32_half → as_i32 n ≡ pos n
unfolding as_i32
as_i32_of_lt n h = ground arith
