-- ===== src/Prelude/Utf8/High.antt =====
-- The bytes of a rune past ASCII are at least 0x80.
use keycell.Prelude.Lists.{All, take}
use keycell.Prelude.Tests.{◌==◌}
use keycell.Prelude.Bytes.{Bytes}
use keycell.Prelude.Utf8.{Rune, two, three, four, decode_rune, rune_error}
use Prim.Native.Nat.{ℕ, ◌≤◌}
use mathlib.Core.Path.{◌≡◌}
use mathlib.Core.Bool.{Bool, false, ◌&&◌}
use mathlib.Core.List.{[], ◌∷◌}
use native.Mathlib.Omega.{arith}

abbrev pub IsHigh : Bytes → Type 0
IsHigh s = All (λ (c : ℕ). 0x80 ≤ c) s

abbrev pub is_broken : Rune → Bool
is_broken r = r.point == rune_error && r.size == 1

two-IsHigh :
    (a : ℕ) (s : Bytes)
    → 0x80 ≤ a
    → is_broken (two a s) ≡ false
    → IsHigh (take (two a s).size (a ∷ s))
unfolding two
two-IsHigh a [] h v = absurd (cc)
two-IsHigh a (b ∷ s) h v = ground arith

three-IsHigh :
    (a : ℕ) (s : Bytes)
    → 0x80 ≤ a
    → is_broken (three a s) ≡ false
    → IsHigh (take (three a s).size (a ∷ s))
unfolding three
three-IsHigh a [] h v = absurd (cc)
three-IsHigh a (b ∷ []) h v = absurd (cc)
three-IsHigh a (b ∷ c ∷ s) h v = ground arith

four-IsHigh :
    (a : ℕ) (s : Bytes)
    → 0x80 ≤ a
    → is_broken (four a s) ≡ false
    → IsHigh (take (four a s).size (a ∷ s))
unfolding four
four-IsHigh a [] h v = absurd (cc)
four-IsHigh a (b ∷ []) h v = absurd (cc)
four-IsHigh a (b ∷ c ∷ []) h v = absurd (cc)
four-IsHigh a (b ∷ c ∷ d ∷ s) h v = ground arith

pub decode_rune-IsHigh :
    (a : ℕ) (s : Bytes)
    → 0x80 ≤ a
    → is_broken (decode_rune a s) ≡ false
    → IsHigh (take (decode_rune a s).size (a ∷ s))
unfolding decode_rune
decode_rune-IsHigh a s h v = ground (arith, two-IsHigh a s h, three-IsHigh a s h, four-IsHigh a s h)

-- A rune takes at least one byte.
pub decode_rune_size : (a : ℕ) (s : Bytes) → 1 ≤ (decode_rune a s).size
unfolding decode_rune two three four
decode_rune_size a [] = ground arith
decode_rune_size a (b ∷ []) = ground arith
decode_rune_size a (b ∷ c ∷ []) = ground arith
decode_rune_size a (b ∷ c ∷ d ∷ s) = ground arith
