-- ===== src/Prelude/Text.antt =====
-- More of `strings`, `sort` and `bufio.Scanner` on lists of bytes.
use keycell.Prelude.Tests.{ltb, ◌==◌, if◌then◌else◌}
use keycell.Prelude.Lists.{length}
use keycell.Prelude.Bytes.{Bytes, less}
use Prim.Native.Nat.{ℕ}
use mathlib.Core.Bool.{Bool, true, false}
use mathlib.Core.List.{List, [], ◌∷◌}

unfoldable pub place : Bytes → List Bytes → List Bytes
place x [] = x ∷ []
place x (y ∷ ys) = if less y x then y ∷ place x ys else x ∷ y ∷ ys

-- sort.Strings
unfoldable pub sort_strings : List Bytes → List Bytes
unfolding place
sort_strings [] = []
sort_strings (x ∷ xs) = place x (sort_strings xs)

-- The lines of a text without their newlines; what follows the last newline is a line unless it
-- is empty.
unfoldable pub raw_lines : Bytes → List Bytes
raw_lines [] = []
raw_lines (c ∷ s) =
    let rest = raw_lines s in
    if c == b'\n' then [] ∷ rest else elim rest [ [] ↦ (c ∷ []) ∷ [] | l ∷ ls ↦ (c ∷ l) ∷ ls ]

-- One trailing carriage return is dropped.
unfoldable pub drop_cr : Bytes → Bytes
drop_cr [] = []
drop_cr (c ∷ []) = if c == b'\r' then [] else c ∷ []
drop_cr (c ∷ d ∷ s) = c ∷ drop_cr (d ∷ s)

-- What a Scanner over lines gives: the tokens before a line that does not fit the buffer, and
-- whether there is such a line.
unfoldable pub scan : ℕ → List Bytes → List Bytes × Bool
unfolding drop_cr
scan limit [] = ([], false)
scan limit (l ∷ ls) =
    let (ts, too_long) = scan limit ls in
    if ltb (length l) limit then (drop_cr l ∷ ts, too_long) else ([], true)
