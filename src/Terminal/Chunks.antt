-- ===== src/Terminal/Chunks.antt =====
-- The line does not depend on how the reads divide the input.
use keycell.Prelude.{
  ◌≡◌, refl, sym, ap, ◌∙◌, arith, List, [], ◌∷◌, ◌++◌, append_assoc, none, some, Option-cases, inl,
  inr, ok,
}
use keycell.Prelude.Bytes.{Bytes, cut}
use keycell.Terminal.{Chunk, more, eof, trimmed, read_line}

-- The reads of a text that ends: each gives some bytes and the last the end of the file.
pub whole : List Bytes → Bytes
whole [] = []
whole (b ∷ bs) = b ++ whole bs

pub chunks : List Bytes → Chunk → List Chunk
chunks [] last = last ∷ []
chunks (b ∷ bs) last = record { data_read = b; ending = more } ∷ chunks bs last

-- The line of a text: up to its first newline, or all of it, without a carriage return at its end.
pub first_line : Bytes → Bytes
unfolding trimmed
first_line s = elim (cut b'\n' s) [ none ↦ trimmed s | some (line, after) ↦ trimmed line ]

cut-append :
    (s t line after : Bytes)
    → cut b'\n' s ≡ some (line, after)
    → cut b'\n' (s ++ t) ≡ some (line, after ++ t)
unfolding cut
cut-append [] t line after h = absurd (cc)
cut-append (x ∷ s) t line after h = elim (Option-cases (cut b'\n' s)) [
  | inl none_there ↦ ground arith
  | inr ((l, r), there) ↦ ground (arith, cut-append s t l r there)
]

first_line-none : (s : Bytes) → cut b'\n' s ≡ none → first_line s ≡ trimmed s
unfolding first_line
first_line-none s h = rw (h, first_line) refl

first_line-cut :
    (s line after : Bytes) → cut b'\n' s ≡ some (line, after) → first_line s ≡ trimmed line
unfolding first_line
first_line-cut s line after h = rw (h, first_line) refl

-- However the reads divide a text, readLine gives its first line.
pub read_line-chunks :
    (acc : Bytes) (bs : List Bytes) (b : Bytes)
    → read_line acc (chunks bs (record { data_read = b; ending = eof }))
      ≡ some (ok (first_line (acc ++ (whole bs ++ b))))
unfolding read_line whole chunks
read_line-chunks acc [] b = elim (Option-cases (cut b'\n' (acc ++ b))) [
  | inl alone ↦ rw (alone, read_line, first_line-none (acc ++ b) alone) refl
  | inr ((l, r), there) ↦ rw (there, read_line, first_line-cut (acc ++ b) l r there) refl
]
read_line-chunks acc (d ∷ bs) b =
    let joined : (acc ++ d) ++ (whole bs ++ b) ≡ acc ++ (whole (d ∷ bs) ++ b) =
      append_assoc acc d (whole bs ++ b) ∙ ap (λ s. acc ++ s) (sym (append_assoc d (whole bs) b)) in
    elim (Option-cases (cut b'\n' (acc ++ d))) [
      | inl not_yet ↦
          rw (not_yet, read_line)
            (read_line-chunks (acc ++ d) bs b ∙ ap (λ s. some (ok (first_line s))) joined)
      | inr ((l, r), there) ↦
          let e = first_line-cut _ l _ (cut-append (acc ++ d) (whole bs ++ b) l r there) in
          rw (there, read_line, ← joined, e) refl
    ]
