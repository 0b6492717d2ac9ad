-- ===== src/Prelude/Int.antt =====
-- The program's `int`: an integer, with the bounds of 32 bits as a predicate.
use Prim.Native.Nat.{ℕ, ◌-◌, ◌%◌, ◌^◌, ◌≤◌}
use mathlib.Core.Bool.{Bool}
use spkdfs.Prelude.Tests.{ltb, leb, if◌then◌else◌}

-- `negsuc n` is -(n + 1).
pub data ℤ : Type 0 where
  pos : ℕ → ℤ
  negsuc : ℕ → ℤ

abbrev pub pos_part : ℤ → ℕ
pos_part (pos n) = n
pos_part (negsuc n) = 0

abbrev pub int_max : ℕ
int_max = 2147483647

-- The values of a 32-bit `int`.
abbrev pub IsInt : ℤ → Type 0
IsInt (pos n) = n ≤ int_max
IsInt (negsuc n) = n ≤ int_max

abbrev signed : ℕ → ℤ
signed low = if leb low int_max then pos low else negsuc (2 ^ 32 - 1 - low)

-- An unsigned number as `int`: its low 32 bits, read as two's complement.
unfoldable pub to_int : ℕ → ℤ
to_int n = signed (n % 2 ^ 32)

-- `a < b`
abbrev pub lt_int : ℤ → ℤ → Bool
lt_int (pos a) (pos b) = ltb a b
lt_int (pos a) (negsuc b) = leb 1 0
lt_int (negsuc a) (pos b) = leb 0 1
lt_int (negsuc a) (negsuc b) = ltb b a
