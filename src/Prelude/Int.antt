-- ===== src/Prelude/Int.antt =====
-- Signed integers over the native numbers, and the conversion of a uint64 to an int64.
use scheduler.Prelude.Tests.{ltb, if◌then◌else◌}
use Prim.Native.Nat.{ℕ, suc, ◌+◌, ◌-◌, ◌%◌}
use mathlib.Core.Bool.{Bool}

-- `negsuc n` is -(n + 1).
pub data ℤ : Type 0 where
  pos : ℕ → ℤ
  negsuc : ℕ → ℤ

abbrev pub pos_part : ℤ → ℕ
pos_part (pos n) = n
pos_part (negsuc n) = 0

abbrev pub neg_part : ℤ → ℕ
neg_part (pos n) = 0
neg_part (negsuc n) = suc n

abbrev pub ltb_ℤ : ℤ → ℤ → Bool
ltb_ℤ a b = ltb (pos_part a + neg_part b) (pos_part b + neg_part a)

-- `int64(x)` of a uint64 `x`: the same 64 bits, read as two's complement.
abbrev pub to_int64 : ℕ → ℤ
to_int64 x = if ltb x 9223372036854775808 then pos x else negsuc (18446744073709551615 - x)

-- `uint64(z)` of an int64 `z`.
abbrev pub to_uint64 : ℤ → ℕ
to_uint64 (pos n) = n
to_uint64 (negsuc n) = 18446744073709551615 - n

abbrev pub max_int64 : ℤ
max_int64 = pos 9223372036854775807

abbrev pub min_int64 : ℤ
min_int64 = negsuc 9223372036854775807

abbrev pub min_int16 : ℤ
min_int16 = negsuc 32767

-- Sum and difference of int64s, which wrap around.
abbrev pub add_int : ℤ → ℕ → ℤ
add_int z k = to_int64 ((to_uint64 z + k) % 18446744073709551616)

abbrev pub sub_int : ℤ → ℤ → ℤ
sub_int a b = to_int64 ((to_uint64 a + (18446744073709551616 - to_uint64 b)) % 18446744073709551616)
