-- ===== src/Terminal.antt =====
-- internal/tty/tty.go: the line that a prompt reads, and the prompt for a new passphrase. The mode
-- of the terminal, its signals and the wiping of the buffers are left out.
pub mod Chunks
use keycell.Prelude.{
  ℕ, Bool, true, false, List, [], ◌∷◌, ◌++◌, Option, none, some, Result, ok, err, if◌then◌else◌,
  ◌==◌,
}
use keycell.Prelude.Bytes.{Bytes, equal, cut}
use keycell.Prelude.Text.{drop_cr}

pub data Error : Type 0 where
  no_tty empty mismatch interrupted failed : Error

-- How a read ends, beside its bytes: more can follow, the end of the file, or another error.
pub data Ending : Type 0 where
  more eof broken : Ending

-- What one Read gives.
pub record Chunk : Type 0 where
  pub data_read : Bytes
  pub ending : Ending

-- trimmed
unfoldable pub trimmed : Bytes → Bytes
unfolding drop_cr
trimmed b = drop_cr b

-- readLine: `acc` is what was read so far. `none` is a terminal that gives nothing more, at which
-- the read waits.
unfoldable pub read_line : Bytes → List Chunk → Option (Result Error Bytes)
unfolding trimmed
read_line acc [] = none
read_line acc (c ∷ cs) =
    let acc' : Bytes = acc ++ c.data_read in
    let rest = read_line acc' cs in
    elim (cut b'\n' acc') [
      | some (line, after) ↦ some (ok (trimmed line))
      | none ↦ elim c.ending [
        | more ↦ rest
        | eof ↦ some (ok (trimmed acc'))
        | broken ↦ some (err failed)
      ]
    ]

-- Confirm, on what the two prompts give.
unfoldable pub confirm : Result Error Bytes → Result Error Bytes → Result Error Bytes
confirm (err e) second = err e
confirm (ok []) second = err empty
confirm (ok (b ∷ bs)) (err e) = err e
confirm (ok (b ∷ bs)) (ok second) = if equal (b ∷ bs) second then ok (b ∷ bs) else err mismatch
