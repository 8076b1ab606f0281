-- ===== src/Prelude/Int.antt =====
-- The signed numbers of the program, such as `int`. They are compared, and never added to here, so
-- that no range is needed.
use Prim.Native.Nat.{ℕ, zero, suc, ◌*◌, ◌-◌, ◌%◌, ◌^◌}
use mathlib.Core.Bool.{Bool, true, false}
use firmware_x.Prelude.Tests.{ltb, leb, ◌==◌, if◌then◌else◌}

-- `negsuc n` is -(n + 1).
pub data ℤ : Type 0 where
  pos : ℕ → ℤ
  negsuc : ℕ → ℤ

abbrev pub minus_one : ℤ
minus_one = negsuc 0

-- `x >= 0`
abbrev pub is_nonneg : ℤ → Bool
is_nonneg (pos n) = true
is_nonneg (negsuc n) = false

-- `x > 0`
abbrev pub is_pos : ℤ → Bool
is_pos (pos n) = ltb 0 n
is_pos (negsuc n) = false

-- `x == n`, for a number that is not negative
abbrev pub is_nat : ℕ → ℤ → Bool
is_nat k (pos n) = n == k
is_nat k (negsuc n) = false

abbrev pub eq_ℤ : ℤ → ℤ → Bool
eq_ℤ (pos m) (pos n) = m == n
eq_ℤ (negsuc m) (negsuc n) = m == n
eq_ℤ (pos m) (negsuc n) = false
eq_ℤ (negsuc m) (pos n) = false

abbrev pub max_ℤ : ℤ → ℤ → ℤ
max_ℤ (pos m) (pos n) = if leb m n then pos n else pos m
max_ℤ (pos m) (negsuc n) = pos m
max_ℤ (negsuc m) (pos n) = pos n
max_ℤ (negsuc m) (negsuc n) = if leb m n then negsuc m else negsuc n

abbrev pub suc_ℤ : ℤ → ℤ
suc_ℤ (pos n) = pos (suc n)
suc_ℤ (negsuc n) = elim n [ zero ↦ pos 0 | suc k ↦ negsuc k ]

-- `a < b`
abbrev pub lt_ℤ : ℤ → ℤ → Bool
lt_ℤ (pos m) (pos n) = ltb m n
lt_ℤ (negsuc m) (pos n) = true
lt_ℤ (negsuc m) (negsuc n) = ltb n m
lt_ℤ (pos m) (negsuc n) = false

-- `x * k`, for a factor that is not negative
abbrev pub scale : ℤ → ℕ → ℤ
scale (pos n) k = pos (n * k)
scale (negsuc n) k = elim (suc n * k) [ zero ↦ pos 0 | suc m ↦ negsuc m ]

-- `static_cast<int32_t>(x)`: the low 32 bits, read as two's complement.
abbrev as_int32 : ℕ → ℤ
as_int32 word = if ltb word (2 ^ 31) then pos word else negsuc (2 ^ 32 - 1 - word)

unfoldable pub to_int32 : ℤ → ℤ
to_int32 (pos n) = as_int32 (n % 2 ^ 32)
to_int32 (negsuc n) = as_int32 (2 ^ 32 - 1 - n % 2 ^ 32)
