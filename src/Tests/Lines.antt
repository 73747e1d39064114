-- ===== src/Tests/Lines.antt =====
-- The theorem about the framing, at a line that comes in two reads.
use keycell.Prelude.{[], ◌∷◌, refl, arith}
use keycell.Prelude.Bytes.{text, contains_byte}
use keycell.Protocol.Reader.{new_reader}
use keycell.Protocol.Reader.Framing.{Framed, read_line-Framed}

read_line-Framed_example : Framed new_reader (text "ab" ∷ text "c\nd" ∷ []) (text "abc") (text "d")
unfolding contains_byte new_reader
read_line-Framed_example =
    read_line-Framed new_reader (text "ab" ∷ text "c\nd" ∷ []) (text "abc") (text "d") refl
      (omega arith) refl
