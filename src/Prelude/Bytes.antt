-- ===== src/Prelude/Bytes.antt =====
-- Go strings and byte slices as lists of bytes: comparison, order, cutting and searching as in
-- the packages `strings` and `bytes`.
use keycell.Prelude.Tests.{ltb, ◌==◌, if◌then◌else◌}
use Prim.Native.Nat.{ℕ}
use Prim.Native.Char.{code}
use Prim.Native.String.{String}
use mathlib.Core.Path.{◌≡◌, refl}
use mathlib.Core.Logic.{◌↔◌, ◌≢◌}
use mathlib.Core.Bool.{Bool, true, false, ◌&&◌, ◌||◌}
use mathlib.Core.Option.{Option, none, some}
use mathlib.Core.List.{List, [], ◌∷◌}
use native.Mathlib.Omega.{arith}

abbrev pub Bytes : Type 0
Bytes = List ℕ

-- The code points of a literal, which are its bytes: every literal of the program is ASCII.
abbrev pub text : String → Bytes
text String.[] = []
text (String.◌∷◌ c s) = code c ∷ text s

-- a == b on strings, and bytes.Equal
unfoldable pub equal : Bytes → Bytes → Bool
equal [] [] = true
equal [] (y ∷ ys) = false
equal (x ∷ xs) [] = false
equal (x ∷ xs) (y ∷ ys) = x == y && equal xs ys

pub equal_refl : (xs : Bytes) → equal xs xs ≡ true
unfolding equal
equal_refl [] = refl
equal_refl (x ∷ xs) = ground (arith, equal_refl xs)

pub equal→eq : (xs ys : Bytes) → equal xs ys ≡ true → xs ≡ ys
unfolding equal
equal→eq [] [] h = refl
equal→eq [] (y ∷ ys) h = cc
equal→eq (x ∷ xs) [] h = cc
equal→eq (x ∷ xs) (y ∷ ys) h = ground (arith, equal→eq xs ys)

pub eq→equal : (xs ys : Bytes) → xs ≡ ys → equal xs ys ≡ true
eq→equal xs ys e = rw (← e) (equal_refl xs)

pub equal_iff : (xs ys : Bytes) → (equal xs ys ≡ true) ↔ (xs ≡ ys)
equal_iff xs ys = (equal→eq xs ys, eq→equal xs ys)

-- a < b on strings: the order of `sort.Strings`
unfoldable pub less : Bytes → Bytes → Bool
less xs [] = false
less [] (y ∷ ys) = true
less (x ∷ xs) (y ∷ ys) = ltb x y || (x == y && less xs ys)

pub less_trans : (xs ys zs : Bytes) → less xs ys ≡ true → less ys zs ≡ true → less xs zs ≡ true
unfolding less
less_trans xs ys [] h k = k
less_trans xs [] (z ∷ zs) h k = cc
less_trans [] (y ∷ ys) (z ∷ zs) h k = refl
less_trans (x ∷ xs) (y ∷ ys) (z ∷ zs) h k = ground (arith, less_trans xs ys zs)

pub less_irrefl : (xs : Bytes) → less xs xs ≡ false
unfolding less
less_irrefl [] = refl
less_irrefl (x ∷ xs) = ground (arith, less_irrefl xs)

pub less_total : (xs ys : Bytes) → less xs ys ≡ false → xs ≢ ys → less ys xs ≡ true
unfolding less
less_total [] [] h k = absurd (k refl)
less_total (x ∷ xs) [] h k = refl
less_total [] (y ∷ ys) h k = cc
less_total (x ∷ xs) (y ∷ ys) h k =
    ground (arith, less_total xs ys, λ (e : xs ≡ ys) (d : x ≡ y). k (λ i. d i ∷ e i))

-- strings.HasPrefix(s, p)
unfoldable pub has_prefix : Bytes → Bytes → Bool
has_prefix s [] = true
has_prefix [] (p ∷ ps) = false
has_prefix (c ∷ s) (p ∷ ps) = c == p && has_prefix s ps

-- strings.Cut(s, sep) for a separator of one byte: `none` when it does not occur
unfoldable pub cut : ℕ → Bytes → Option (Bytes × Bytes)
cut sep [] = none
cut sep (c ∷ s) =
    if c == sep
    then some ([], s)
    else elim (cut sep s) [ none ↦ none | some (a, b) ↦ some (c ∷ a, b) ]

-- bytes.IndexByte(s, c) >= 0, strings.Contains
unfoldable pub contains_byte : ℕ → Bytes → Bool
contains_byte c [] = false
contains_byte c (x ∷ xs) = x == c || contains_byte c xs

-- clear(b)
unfoldable pub clear : Bytes → Bytes
clear [] = []
clear (x ∷ xs) = 0 ∷ clear xs

-- A map entry for a missing key reads as the empty string.
abbrev pub or_empty : Option Bytes → Bytes
or_empty none = []
or_empty (some b) = b
