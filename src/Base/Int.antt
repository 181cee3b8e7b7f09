-- ===== src/Base/Int.antt =====
-- Go's `int` where the code tests its sign: a whole number, with the tests that are used.
use Prim.Native.Nat.{ℕ, zero, suc, ◌^◌, ◌*◌, ◌%◌, ◌-◌}
use mathlib.Core.Bool.{Bool, true, false}
use single_proxy.Base.Tests.{ltb, if◌then◌else◌}

-- `negsuc n` is -(n + 1).
pub data ℤ : Type 0 where
  pos : ℕ → ℤ
  negsuc : ℕ → ℤ

abbrev pub is_zero : ℤ → Bool
is_zero (pos zero) = true
is_zero (pos (suc n)) = false
is_zero (negsuc n) = false

-- n <= 0
abbrev pub non_positive : ℤ → Bool
non_positive (pos zero) = true
non_positive (pos (suc n)) = false
non_positive (negsuc n) = true

-- The int64 with a bit pattern, and n * 2 with its wrap-around for n > 0.
abbrev pub signed64 : ℕ → ℤ
signed64 w = if ltb w (2 ^ 63) then pos w else negsuc (2 ^ 64 - w - 1)

abbrev pub doubled : ℕ → ℤ
doubled n = signed64 (n * 2 % 2 ^ 64)
