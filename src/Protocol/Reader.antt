-- ===== src/Protocol/Reader.antt =====
-- The Reader of internal/protocol/codec.go: lines out of what the connection's reads return. The
-- zeroing of consumed bytes is left out.
pub mod Framing
pub mod Limits
use keycell.Prelude.{
  ℕ, ◌+◌, ◌*◌, ◌/◌, min, Bool, true, false, List, [], ◌∷◌, ◌++◌, Option, none, some, if◌then◌else◌,
  ltb, ◌==◌, length, drop,
}
use keycell.Prelude.Bytes.{Bytes, equal, cut}
use keycell.Vault.Validate.{max_value_len}

abbrev pub max_line_len : ℕ
max_line_len = 4 * ((max_value_len + 2) / 3) + 64 * 1024

-- `contents` is r.buf[:r.n], and `size` is len(r.buf).
pub record Reader : Type 0 where
  pub contents : Bytes
  pub size : ℕ

-- NewReader
unfoldable pub new_reader : Reader
new_reader = record { contents = []; size = 4096 }

-- What one Read of the connection returns: bytes alone, or with io.EOF, or with another error.
pub data Reading : Type 0 where
  more ended broken : Bytes → Reading

-- What readLine returns; `waiting` is a Read that does not return.
pub data Line : Type 0 where
  line : Bytes → Line
  too_long closed cut_off failed waiting : Line

-- A full buffer is doubled.
unfoldable pub grow : Reader → Reader
grow r =
    if length r.contents == r.size
    then record r { size = min (2 * r.size) (max_line_len + 1) }
    else r

-- The end of the stream, with what the buffer then has.
unfoldable pub at_end : Bytes → Line
at_end s = if equal s [] then closed else cut_off

abbrev pub append : Bytes → Reader → Reader
append b r = record r { contents = r.contents ++ b }

-- readLine, on the results of the reads to come: the reader, the line, and the reads that are left.
unfoldable pub read_line : Reader → List Reading → Reader × Line × List Reading
unfolding grow at_end
read_line r [] = elim (cut b'\n' r.contents) [
  | some (l, rest) ↦ (r, line l, [])
  | none ↦ if ltb max_line_len (length r.contents) then (r, too_long, []) else (grow r, waiting, [])
]
read_line r (more b ∷ rs) =
    let next = read_line (append b (grow r)) rs in
    elim (cut b'\n' r.contents) [
      | some (l, rest) ↦ (r, line l, more b ∷ rs)
      | none ↦ if ltb max_line_len (length r.contents) then (r, too_long, more b ∷ rs) else next
    ]
read_line r (ended b ∷ rs) = elim (cut b'\n' r.contents) [
  | some (l, rest) ↦ (r, line l, ended b ∷ rs)
  | none ↦
      if ltb max_line_len (length r.contents)
      then (r, too_long, ended b ∷ rs)
      else (append b (grow r), at_end (r.contents ++ b), rs)
]
read_line r (broken b ∷ rs) = elim (cut b'\n' r.contents) [
  | some (l, rest) ↦ (r, line l, broken b ∷ rs)
  | none ↦
      if ltb max_line_len (length r.contents)
      then (r, too_long, broken b ∷ rs)
      else (append b (grow r), failed, rs)
]

-- consume, for a line of the given length
unfoldable pub consume : ℕ → Reader → Reader
consume n r = record r { contents = drop (n + 1) r.contents }
