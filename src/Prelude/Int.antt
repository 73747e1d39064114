-- ===== src/Prelude/Int.antt =====
-- Signed integers over the native numbers, under the library's names, and Go's int64.
use keycell.Prelude.Tests.{ltb, if◌then◌else◌}
use Prim.Native.Nat.{ℕ, zero, suc, ◌-◌, ◌*◌, ◌%◌, ◌^◌}
use mathlib.Core.Bool.{Bool, true, false}

-- `negsuc n` is -(n + 1).
pub data ℤ : Type 0 where
  pos : ℕ → ℤ
  negsuc : ℕ → ℤ

abbrev pub int64_mod : ℕ
int64_mod = 2 ^ 64

-- The 64 bits of an integer in two's complement, for a magnitude of at most 2^64.
abbrev pub to_bits : ℤ → ℕ
to_bits (pos n) = n % int64_mod
to_bits (negsuc n) = int64_mod - suc (n % int64_mod)

-- An int64 from its bits.
abbrev pub from_bits : ℕ → ℤ
from_bits b = if ltb b (2 ^ 63) then pos b else negsuc (int64_mod - b - 1)

-- a * b on int64, with its wrap-around
unfoldable pub mul_int64 : ℤ → ℤ → ℤ
mul_int64 a b = from_bits (to_bits a * to_bits b % int64_mod)

-- a > 0
abbrev pub is_pos : ℤ → Bool
is_pos (pos zero) = false
is_pos (pos (suc n)) = true
is_pos (negsuc n) = false

abbrev pub pos_part : ℤ → ℕ
pos_part (pos n) = n
pos_part (negsuc n) = 0

-- a > b
abbrev pub gtb : ℤ → ℤ → Bool
gtb (pos a) (pos b) = ltb b a
gtb (pos a) (negsuc b) = true
gtb (negsuc a) (pos b) = false
gtb (negsuc a) (negsuc b) = ltb a b
