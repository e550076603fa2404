-- ===== src/Base/Integer.antt =====
-- Go's `int` and C's `int`: signed integers over the native numbers, and the conversions of a Go
-- integer to C's types of 32 bits, which wrap.
use Prim.Native.Nat.{ℕ, suc, ◌-◌, ◌%◌}
use go_lxc.Base.Logic.{ltb, if◌then◌else◌}
use mathlib.Core.Bool.{Bool, true, false}

-- `negsuc n` is -(n + 1).
pub data ℤ : Type 0 where
  pos : ℕ → ℤ
  negsuc : ℕ → ℤ

abbrev pub minus_one : ℤ
minus_one = negsuc 0

abbrev pub is_neg : ℤ → Bool
is_neg (pos n) = false
is_neg (negsuc n) = true

abbrev pub two_to_32 : ℕ
two_to_32 = 0x1_0000_0000

-- `C.uid_t(z)` and `C.gid_t(z)`
unfoldable pub to_uint32 : ℤ → ℕ
to_uint32 (pos n) = n % two_to_32
to_uint32 (negsuc n) = two_to_32 - suc (n % two_to_32)

-- `C.int(z)`
unfoldable pub to_int32 : ℤ → ℤ
unfolding to_uint32
to_int32 z = let u = to_uint32 z in if ltb u 0x8000_0000 then pos u else negsuc (two_to_32 - suc u)
