-- ===== src/Protocol/Reader/Limits.antt =====
-- How much readLine reads, and how large its buffer grows.
use keycell.Prelude.{
  ◌+◌, ◌≤◌, ◌<◌, ◌≡◌, ◌⊎◌, inl, inr, refl, arith, Bool-cases, Option-cases, true, List, [], ◌∷◌,
  length, length-append, ltb, ◌==◌,
}
use keycell.Prelude.Bytes.{Bytes, cut}
use keycell.Protocol.Reader.{Reader, line, too_long, max_line_len, grow, append, read_line}
use keycell.Protocol.Reader.Framing.{all_more, joined, grow-contents}

-- The buffer is not empty and at most one byte larger than the longest line.
pub record IsBounded (r : Reader) : Type 0 where
  pub fits : length r.contents ≤ r.size
  pub starts : 1 ≤ r.size
  pub ends : r.size ≤ max_line_len + 1

-- Each read returns at most what the buffer has room for, as io.Reader promises.
abbrev pub HaveRoom : Reader → List Bytes → Type 0
HaveRoom r [] = Unit
HaveRoom r (b ∷ bs) =
    (length r.contents + length b ≤ (grow r).size) × HaveRoom (append b (grow r)) bs

-- A buffer that is full grows, and then has room.
grow_sizes :
    (r : Reader)
    → IsBounded r
    → ((grow r).contents ≡ r.contents)
      × (1 ≤ (grow r).size)
      × ((grow r).size ≤ max_line_len + 1)
      × (length r.contents ≤ (grow r).size)
      × (length r.contents ≤ max_line_len → length r.contents < (grow r).size)
unfolding grow
grow_sizes r h = elim (Bool-cases (length r.contents == r.size)) [
  | inl full ↦
      let same : length r.contents ≡ r.size = ground arith in
      rw full (
        refl,
        omega (arith, h.starts),
        omega arith,
        omega (arith, same, h.ends, h.starts),
        λ n. omega (arith, same, h.starts, n),
      )
  | inr more_room ↦
      rw more_room (refl, h.starts, h.ends, h.fits, λ n. ground (arith, h.fits, more_room))
]

append-IsBounded :
    (r : Reader) (b : Bytes)
    → IsBounded r
    → length r.contents + length b ≤ (grow r).size
    → IsBounded (append b (grow r))
append-IsBounded r b h room =
    let (same, low, high, fits, _) = grow_sizes r h in
    record {
      fits = rw same (omega (arith, length-append r.contents b, room));
      starts = low;
      ends = high;
    }

-- At each read of a buffer that is not over the limit, there is room for a byte.
abbrev pub CanRead : Reader → List Bytes → Type 0
CanRead r [] = length r.contents ≤ max_line_len → length r.contents < (grow r).size
CanRead r (b ∷ bs) =
    (length r.contents ≤ max_line_len → length r.contents < (grow r).size)
    × CanRead (append b (grow r)) bs

stops-IsBounded :
    (r : Reader) (bs : List Bytes)
    → IsBounded r
    → HaveRoom r bs
    → IsBounded (read_line r (all_more bs)).0
unfolding read_line
stops-IsBounded r [] h room = elim (Option-cases (cut b'\n' r.contents)) [
  | inr ((l, rest), c) ↦ rw (c, read_line) h
  | inl c ↦ elim (Bool-cases (ltb max_line_len (length r.contents))) [
    | inl over ↦ rw (c, over, read_line) h
    | inr under ↦
        rw (c, under, read_line)
          (let (same, low, high, fits, _) = grow_sizes r h in
            record { fits = rw same fits; starts = low; ends = high })
  ]
]
stops-IsBounded r (b ∷ bs) h room = elim (Option-cases (cut b'\n' r.contents)) [
  | inr ((l, rest), c) ↦ rw (c, read_line) h
  | inl c ↦ elim (Bool-cases (ltb max_line_len (length r.contents))) [
    | inl over ↦ rw (c, over, read_line) h
    | inr under ↦
        rw (c, under, read_line)
          (stops-IsBounded (append b (grow r)) bs (append-IsBounded r b h room.0) room.1)
  ]
]

always-CanRead : (r : Reader) (bs : List Bytes) → IsBounded r → HaveRoom r bs → CanRead r bs
always-CanRead r [] h room = (grow_sizes r h).4
always-CanRead r (b ∷ bs) h room = (
  (grow_sizes r h).4,
  always-CanRead (append b (grow r)) bs (append-IsBounded r b h room.0) room.1,
)

-- On a connection whose reads return no more than there is room for, readLine keeps the size of
-- its buffer at most max_line_len + 1 bytes, and no read is for nothing: where it reads again,
-- there is room for at least one more byte.
pub read_line-IsBounded :
    (r : Reader) (bs : List Bytes)
    → IsBounded r
    → HaveRoom r bs
    → IsBounded (read_line r (all_more bs)).0 × CanRead r bs
read_line-IsBounded r bs h room = (stops-IsBounded r bs h room, always-CanRead r bs h room)

-- When the buffer and the reads have more than max_line_len bytes, readLine ends: with a line, or
-- with the error that the line is too long.
pub read_line_ends :
    (r : Reader) (bs : List Bytes)
    → max_line_len < length r.contents + length (joined bs)
    → ((l : Bytes) × ((read_line r (all_more bs)).1 ≡ line l))
      ⊎ ((read_line r (all_more bs)).1 ≡ too_long)
unfolding read_line
read_line_ends r [] n = elim (Option-cases (cut b'\n' r.contents)) [
  | inr ((l, rest), c) ↦ inl (l, rw (c, read_line) refl)
  | inl c ↦
      let over : ltb max_line_len (length r.contents) ≡ true = ground (arith, n) in
      inr (rw (c, over, read_line) refl)
]
read_line_ends r (b ∷ bs) n = elim (Option-cases (cut b'\n' r.contents)) [
  | inr ((l, rest), c) ↦ inl (l, rw (c, read_line) refl)
  | inl c ↦ elim (Bool-cases (ltb max_line_len (length r.contents))) [
    | inl over ↦ inr (rw (c, over, read_line) refl)
    | inr under ↦
        rw (c, under, read_line)
          (read_line_ends (append b (grow r)) bs (
            rw (grow-contents r, length-append r.contents b)
              (omega (arith, n, length-append b (joined bs)))))
  ]
]
