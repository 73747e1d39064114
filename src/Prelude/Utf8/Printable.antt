-- ===== src/Prelude/Utf8/Printable.antt =====
-- strings.TrimSpace on printable ASCII.
use keycell.Prelude.Lists.{All}
use keycell.Prelude.Tests.{ltb}
use keycell.Prelude.Bytes.{Bytes}
use keycell.Prelude.Utf8.{
  Rune, decode_rune, runes_from, runes, is_space, trim_left, trim_right, join, trim_space,
}
use Prim.Native.Nat.{ℕ, ◌≤◌, ◌<◌}
use mathlib.Core.Path.{◌≡◌, refl, ap, ◌∙◌}
use mathlib.Core.Bool.{true, false}
use mathlib.Core.List.{List, [], ◌∷◌, ◌++◌}
use native.Mathlib.Omega.{arith}

abbrev pub IsPrintable : Bytes → Type 0
IsPrintable s = All (λ (c : ℕ). (33 ≤ c) × (c ≤ 126)) s

abbrev IsAscii : Bytes → Type 0
IsAscii s = All (λ (c : ℕ). c < 0x80) s

abbrev single : ℕ → Rune × Bytes
single c = (record { point = c; size = 1 }, c ∷ [])

abbrev singles : Bytes → List (Rune × Bytes)
singles [] = []
singles (c ∷ s) = single c ∷ singles s

runes_from-ascii : (s : Bytes) → IsAscii s → runes_from 0 s ≡ singles s
unfolding runes_from decode_rune
runes_from-ascii [] h = refl
runes_from-ascii (c ∷ s) h =
    let low : ltb c 0x80 ≡ true = ground (arith, h.0) in
    rw low (ap (λ t. single c ∷ t) (runes_from-ascii s h.1))

visible : (c : ℕ) → 33 ≤ c → c ≤ 126 → is_space c ≡ false
visible c h k = ground (arith, h, k)

join-singles : (s : Bytes) → join (singles s) ≡ s
unfolding join
join-singles [] = refl
join-singles (c ∷ s) = ap (λ t. c ∷ t) (join-singles s)

trim_right-singles : (s : Bytes) → IsPrintable s → trim_right (singles s) ≡ singles s
unfolding trim_right
trim_right-singles [] h = refl
trim_right-singles (c ∷ []) h = rw (visible c h.0.0 h.0.1) refl
trim_right-singles (c ∷ d ∷ s) h = rw (trim_right-singles (d ∷ s) h.1) refl

trim_right_newline :
    (s : Bytes) → IsPrintable s → trim_right (singles (s ++ b'\n' ∷ [])) ≡ singles s
unfolding trim_right
trim_right_newline [] h = refl
trim_right_newline (c ∷ []) h = rw (visible c h.0.0 h.0.1) refl
trim_right_newline (c ∷ d ∷ s) h = rw (trim_right_newline (d ∷ s) h.1) refl

printable-IsAscii : (s : Bytes) → IsPrintable s → IsAscii s
printable-IsAscii [] h = tt
printable-IsAscii (c ∷ s) h = (omega (arith, h.0.1), printable-IsAscii s h.1)

newline-IsAscii : (s : Bytes) → IsPrintable s → IsAscii (s ++ b'\n' ∷ [])
newline-IsAscii [] h = (omega arith, tt)
newline-IsAscii (c ∷ s) h = (omega (arith, h.0.1), newline-IsAscii s h.1)

trim_left_visible :
    (c : ℕ) (rs : List (Rune × Bytes))
    → is_space c ≡ false
    → trim_left (single c ∷ rs) ≡ single c ∷ rs
unfolding trim_left
trim_left_visible c rs h = rw h refl

-- The trim of ASCII bytes that start with a visible one.
trim_ascii :
    (c : ℕ) (s t : Bytes)
    → is_space c ≡ false
    → IsAscii (c ∷ s)
    → trim_right (singles (c ∷ s)) ≡ singles t
    → trim_space (c ∷ s) ≡ t
unfolding trim_space runes
trim_ascii c s t v h e =
    ap (λ rs. join (trim_right (trim_left rs))) (runes_from-ascii (c ∷ s) h)
    ∙ ap (λ rs. join (trim_right rs)) (trim_left_visible c (singles s) v)
    ∙ ap join e
    ∙ join-singles t

-- Printable bytes have nothing to trim.
pub trim_space_printable : (s : Bytes) → IsPrintable s → trim_space s ≡ s
unfolding trim_space
trim_space_printable [] h = refl
trim_space_printable (c ∷ s) h =
    trim_ascii c s (c ∷ s) (visible c h.0.0 h.0.1) (printable-IsAscii (c ∷ s) h)
      (trim_right-singles (c ∷ s) h)

-- A newline behind printable bytes is trimmed.
pub trim_space_newline : (s : Bytes) → IsPrintable s → trim_space (s ++ b'\n' ∷ []) ≡ s
unfolding trim_space decode_rune
trim_space_newline [] h = refl
trim_space_newline (c ∷ s) h =
    trim_ascii c (s ++ b'\n' ∷ []) (c ∷ s) (visible c h.0.0 h.0.1) (newline-IsAscii (c ∷ s) h)
      (trim_right_newline (c ∷ s) h)
