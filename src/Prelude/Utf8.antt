-- ===== src/Prelude/Utf8.antt =====
-- UTF-8 as the packages `unicode/utf8`, `unicode` and `strings` read it: the runes of a string,
-- control characters, white space and `strings.TrimSpace`.
pub mod High
pub mod Printable
use keycell.Prelude.Tests.{ltb, leb, ◌==◌, if◌then◌else◌}
use keycell.Prelude.Lists.{take}
use keycell.Prelude.Bytes.{Bytes}
use Prim.Native.Nat.{ℕ, zero, suc, ◌+◌, ◌-◌, ◌*◌, ◌%◌}
use mathlib.Core.Bool.{Bool, false, ◌&&◌, ◌||◌, not}
use mathlib.Core.List.{List, [], ◌∷◌, ◌++◌}

-- utf8.RuneError
abbrev pub rune_error : ℕ
rune_error = 0xfffd

-- One step of the decoding: the code point and the bytes that it takes.
pub record Rune : Type 0 where
  pub point : ℕ
  pub size : ℕ

abbrev pub broken : Rune
broken = record { point = rune_error; size = 1 }

-- A continuation byte, 0x80 to 0xBF.
abbrev pub is_cont : ℕ → Bool
is_cont b = leb 0x80 b && leb b 0xbf

-- The range of the second byte behind the lead byte `a`.
abbrev second_ok : ℕ → ℕ → Bool
second_ok a b =
    if a == 0xe0
    then leb 0xa0 b && leb b 0xbf
    else if a == 0xed
    then leb 0x80 b && leb b 0x9f
    else if a == 0xf0
    then leb 0x90 b && leb b 0xbf
    else if a == 0xf4
    then leb 0x80 b && leb b 0x8f
    else is_cont b

two : ℕ → Bytes → Rune
two a (b ∷ s) = if is_cont b then record { point = a % 32 * 64 + b % 64; size = 2 } else broken
two a s = broken

three : ℕ → Bytes → Rune
three a (b ∷ c ∷ s) =
    if second_ok a b && is_cont c
    then record { point = a % 16 * 4096 + b % 64 * 64 + c % 64; size = 3 }
    else broken
three a s = broken

four : ℕ → Bytes → Rune
four a (b ∷ c ∷ d ∷ s) =
    if second_ok a b && is_cont c && is_cont d
    then record { point = a % 8 * 262144 + b % 64 * 4096 + c % 64 * 64 + d % 64; size = 4 }
    else broken
four a s = broken

-- utf8.DecodeRune on the lead byte and what follows it
unfoldable pub decode_rune : ℕ → Bytes → Rune
unfolding two three four
decode_rune a s =
    if ltb a 0x80
    then record { point = a; size = 1 }
    else if ltb a 0xc2
    then broken
    else if ltb a 0xe0
    then two a s
    else if ltb a 0xf0
    then three a s
    else if ltb a 0xf5
    then four a s
    else broken

-- `for _, r := range s`, with the bytes of each rune. `skip` bytes belong to the rune before.
unfoldable pub runes_from : ℕ → Bytes → List (Rune × Bytes)
runes_from skip [] = []
runes_from zero (a ∷ s) =
    let r = decode_rune a s in (r, take r.size (a ∷ s)) ∷ runes_from (r.size - 1) s
runes_from (suc skip) (a ∷ s) = runes_from skip s

unfoldable pub runes : Bytes → List (Rune × Bytes)
unfolding runes_from
runes = runes_from 0

unfoldable pub any_rune : (Rune → Bool) → List (Rune × Bytes) → Bool
any_rune p [] = false
any_rune p ((r, b) ∷ rs) = p r || any_rune p rs

-- utf8.ValidString
unfoldable pub valid_string : Bytes → Bool
unfolding any_rune runes
valid_string s = not (any_rune (λ r. r.point == rune_error && r.size == 1) (runes s))

-- unicode.IsControl
abbrev pub is_control : ℕ → Bool
is_control r = ltb r 0x20 || (leb 0x7f r && ltb r 0xa0)

-- unicode.IsSpace
abbrev pub is_space : ℕ → Bool
is_space r =
    (leb 9 r && leb r 13)
    || (r == 0x20
        || (r == 0x85
            || (r == 0xa0
                || (r == 0x1680
                    || ((leb 0x2000 r && leb r 0x200a)
                        || (r == 0x2028
                            || (r == 0x2029 || (r == 0x202f || (r == 0x205f || r == 0x3000)))))))))

unfoldable pub trim_left : List (Rune × Bytes) → List (Rune × Bytes)
trim_left [] = []
trim_left ((r, b) ∷ rs) = if is_space r.point then trim_left rs else (r, b) ∷ rs

unfoldable pub trim_right : List (Rune × Bytes) → List (Rune × Bytes)
trim_right [] = []
trim_right ((r, b) ∷ rs) = elim (trim_right rs) [
  | [] ↦ if is_space r.point then [] else (r, b) ∷ []
  | t ∷ ts ↦ (r, b) ∷ t ∷ ts
]

unfoldable pub join : List (Rune × Bytes) → Bytes
join [] = []
join ((r, b) ∷ rs) = b ++ join rs

-- strings.TrimSpace
unfoldable pub trim_space : Bytes → Bytes
unfolding runes trim_left trim_right join
trim_space s = join (trim_right (trim_left (runes s)))
