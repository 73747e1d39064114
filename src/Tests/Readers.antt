-- ===== src/Tests/Readers.antt =====
-- The theorems about the reader's buffer and about the line of a prompt.
use keycell.Prelude.{
  ◌+◌, ◌≡◌, ◌<◌, ◌⊎◌, arith, [], ◌∷◌, List, some, ok, length, replicate, length-replicate,
  append-nil, ◌++◌, ℕ,
}
use keycell.Prelude.Bytes.{Bytes, text}
use keycell.Protocol.Reader.{Reader, max_line_len, new_reader, read_line, line, too_long}
use keycell.Protocol.Reader.Framing.{all_more}
use keycell.Protocol.Reader.Limits.{
  IsBounded, HaveRoom, CanRead, read_line-IsBounded, read_line_ends,
}
use keycell.Terminal
use keycell.Terminal.{eof}
use keycell.Terminal.Chunks.{chunks, first_line, whole, read_line-chunks}

abbrev two_reads : List Bytes
two_reads = text "ab" ∷ text "c\nd" ∷ []

new_reader-IsBounded : IsBounded new_reader
unfolding new_reader
new_reader-IsBounded = record { fits = omega arith; starts = omega arith; ends = omega arith }

two_reads-HaveRoom : HaveRoom new_reader two_reads
unfolding new_reader keycell.Protocol.Reader.grow
two_reads-HaveRoom = (omega arith, (omega arith, tt))

read_line-IsBounded_example :
    IsBounded (read_line new_reader (all_more two_reads)).0 × CanRead new_reader two_reads
read_line-IsBounded_example =
    read_line-IsBounded new_reader two_reads new_reader-IsBounded two_reads-HaveRoom

-- One read of many bytes with no newline.
unfoldable many : ℕ → Bytes
many n = replicate n b'x'

length-many : (n : ℕ) → max_line_len < n → max_line_len < 0 + length (many n ++ [])
unfolding many
length-many n h = rw (append-nil, length-replicate {A = ℕ} n b'x') (omega arith)

abbrev nothing_read : Reader
nothing_read = record { contents = []; size = 4096 }

read_line_ends_example :
    ((l : Bytes) × ((read_line nothing_read (all_more (many 2_000_000 ∷ []))).1 ≡ line l))
    ⊎ ((read_line nothing_read (all_more (many 2_000_000 ∷ []))).1 ≡ too_long)
read_line_ends_example =
    read_line_ends nothing_read (many 2_000_000 ∷ []) (length-many 2_000_000 (omega arith))

read_line-chunks_example :
    Terminal.read_line [] (chunks two_reads (record { data_read = text "e"; ending = eof }))
    ≡ some (ok (first_line ([] ++ (whole two_reads ++ text "e"))))
read_line-chunks_example = read_line-chunks [] two_reads (text "e")
