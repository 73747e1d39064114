-- ===== src/Protocol/Reader/Framing.antt =====
-- The lines do not depend on how the connection cuts the bytes into reads.
use keycell.Prelude.{
  ℕ, suc, ◌+◌, ◌≤◌, ◌≡◌, refl, sym, ap, ◌∙◌, arith, true, false, List, [], ◌∷◌, ◌++◌, append-nil,
  append_assoc, Option, none, some, Option-cases, ◌⊎◌, Bool-cases, ltb, ◌==◌, length, drop, inl,
  inr,
}
use keycell.Prelude.Bytes.{Bytes, cut, contains_byte}
use keycell.Protocol.Reader.{
  Reader, Reading, more, line, max_line_len, grow, append, read_line, consume,
}

cut_line :
    (c : ℕ) (l rest : Bytes) → contains_byte c l ≡ false → cut c (l ++ c ∷ rest) ≡ some (l, rest)
unfolding cut contains_byte
cut_line c [] rest h = ground arith
cut_line c (x ∷ l) rest h = ground (arith, cut_line c l rest)

-- Where the first byte leaves the cut.
cut-cons :
    (c d : ℕ) (x a b : Bytes)
    → cut c (d ∷ x) ≡ some (a, b)
    → ((d == c ≡ true) × (a ≡ []) × (b ≡ x))
      ⊎ ((d == c ≡ false) × (e : Bytes) × (cut c x ≡ some (e, b)) × (a ≡ d ∷ e))
unfolding cut
cut-cons c d x a b h = elim (Bool-cases (d == c)) [
  | inl t ↦ inl (t, ground arith, ground arith)
  | inr f ↦ elim (Option-cases (cut c x)) [
    | inl e ↦ absurd (ground arith)
    | inr ((k, m), e) ↦ inr (f, k, ground arith, ground arith)
  ]
]

cut-append : (c : ℕ) (x y a b : Bytes) → cut c x ≡ some (a, b) → cut c (x ++ y) ≡ some (a, b ++ y)
unfolding cut
cut-append c [] y a b h = absurd (cc)
cut-append c (d ∷ x) y a b h = elim (cut-cons c d x a b h) [
  | inl (t, p, q) ↦ rw (t, p, q) refl
  | inr (f, e, k, p) ↦ rw (f, p, cut-append c x y e b k) refl
]

drop-cut : (c : ℕ) (x a b : Bytes) → cut c x ≡ some (a, b) → drop (suc (length a)) x ≡ b
unfolding cut
drop-cut c [] a b h = absurd (cc)
drop-cut c (d ∷ x) a b h = elim (cut-cons c d x a b h) [
  | inl (t, p, q) ↦ rw (p, q) refl
  | inr (f, e, k, p) ↦ rw p (drop-cut c x e b k)
]

cut-none-length :
    (c : ℕ) (x y l rest : Bytes) → cut c x ≡ none → x ++ y ≡ l ++ c ∷ rest → length x ≤ length l
unfolding cut
cut-none-length c [] y l rest h e = omega arith
cut-none-length c (d ∷ x) y [] rest h e =
    let same : d ≡ c = ground arith in absurd (ground (arith, same))
cut-none-length c (d ∷ x) y (k ∷ l) rest h e =
    let f : cut c x ≡ none = ground arith in
    let t : x ++ y ≡ l ++ c ∷ rest = ground arith in omega (arith, cut-none-length c x y l rest f t)

-- The bytes of reads that return no error.
abbrev pub all_more : List Bytes → List Reading
all_more [] = []
all_more (b ∷ bs) = more b ∷ all_more bs

abbrev pub joined : List Bytes → Bytes
joined [] = []
joined (b ∷ bs) = b ++ joined bs

-- What readLine and consume leave behind the line `l`: the bytes `rest`, in the buffer and in the
-- reads to come.
pub record Framed (r : Reader) (bs : List Bytes) (l rest : Bytes) : Type 0 where
  pub after : Reader
  pub left : List Bytes
  pub is : read_line r (all_more bs) ≡ (after, line l, all_more left)
  pub kept : (consume (length l) after).contents ++ joined left ≡ rest

abbrev parts : Bytes → Bytes → Option (Bytes × Bytes)
parts a b = some (a, b)

parts_eq : (a b c d : Bytes) → parts a b ≡ parts c d → (a ≡ c) × (b ≡ d)
parts_eq a b c d h = (ground arith, ground arith)

plus_one : (n : ℕ) → n + 1 ≡ suc n
plus_one n = omega arith

pub grow-contents : (r : Reader) → (grow r).contents ≡ r.contents
unfolding grow
grow-contents r = ground arith

read_line_found :
    (r : Reader) (bs : List Bytes) (a b : Bytes)
    → cut b'\n' r.contents ≡ some (a, b)
    → read_line r (all_more bs) ≡ (r, line a, all_more bs)
unfolding read_line
read_line_found r [] a b c = rw (c, read_line) refl
read_line_found r (x ∷ bs) a b c = rw (c, read_line) refl

read_line_more :
    (r : Reader) (b : Bytes) (rs : List Reading)
    → cut b'\n' r.contents ≡ none
    → length r.contents ≤ max_line_len
    → read_line r (more b ∷ rs) ≡ read_line (append b (grow r)) rs
unfolding read_line
read_line_more r b rs c n =
    let small : ltb max_line_len (length r.contents) ≡ false = ground arith in
    rw (c, small, read_line) refl

found-Framed :
    (r : Reader) (bs : List Bytes) (l rest a b : Bytes)
    → contains_byte b'\n' l ≡ false
    → r.contents ++ joined bs ≡ l ++ b'\n' ∷ rest
    → cut b'\n' r.contents ≡ some (a, b)
    → Framed r bs l rest
unfolding consume
found-Framed r bs l rest a b h e c =
    let whole = cut-append b'\n' r.contents (joined bs) a b c in
    let (p, q) =
      parts_eq a (b ++ joined bs) l rest (sym whole ∙ ap (cut b'\n') e ∙ cut_line b'\n' l rest h) in
    record {
      after = r;
      left = bs;
      is = rw (← p) (read_line_found r bs a b c);
      kept = rw (← p) (rw (plus_one (length a), drop-cut b'\n' r.contents a b c) q);
    }

-- A line of at most max_line_len bytes, with its newline and whatever follows, in however many
-- reads: readLine returns the line, and consume leaves exactly what follows it.
pub read_line-Framed :
    (r : Reader) (bs : List Bytes) (l rest : Bytes)
    → contains_byte b'\n' l ≡ false
    → length l ≤ max_line_len
    → r.contents ++ joined bs ≡ l ++ b'\n' ∷ rest
    → Framed r bs l rest
read_line-Framed r [] l rest h n e = elim (Option-cases (cut b'\n' r.contents)) [
  | inr ((a, b), c) ↦ found-Framed r [] l rest a b h e c
  | inl c ↦
      let there =
        sym (ap (cut b'\n') (append-nil r.contents)) ∙ ap (cut b'\n') e ∙ cut_line b'\n' l rest h in
      absurd (cc (c, there))
]
read_line-Framed r (b ∷ bs) l rest h n e = elim (Option-cases (cut b'\n' r.contents)) [
  | inr ((a, d), c) ↦ found-Framed r (b ∷ bs) l rest a d h e c
  | inl c ↦
      let short = cut-none-length b'\n' r.contents (b ++ joined bs) l rest c e in
      let whole : (append b (grow r)).contents ++ joined bs ≡ l ++ b'\n' ∷ rest =
        rw (grow-contents r) (append_assoc r.contents b (joined bs) ∙ e) in
      let f = read_line-Framed (append b (grow r)) bs l rest h n whole in
      record {
        after = f.after;
        left = f.left;
        kept = f.kept;
        is = read_line_more r b (all_more bs) c (omega (arith, short, n)) ∙ f.is;
      }
]
