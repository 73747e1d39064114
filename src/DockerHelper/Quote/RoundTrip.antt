-- ===== src/DockerHelper/Quote/RoundTrip.antt =====
-- quote and unquote, one after the other.
use keycell.DockerHelper.Quote.{
  hex_digit, hex_value, hex_loop, hex4, unquote_rune, append_rune, escape, before, unquote_from,
  before_quote, unquote, quote_from, quote,
}
use keycell.Prelude.{
  ℕ, zero, suc, ◌+◌, ◌-◌, ◌*◌, ◌/◌, ◌%◌, ◌≤◌, ◌<◌, ◌≡◌, ◌≢◌, refl, arith, true, false, ◌||◌, [],
  ◌∷◌, ◌++◌, some, ok, inl, inr, Bool-cases, ap, ltb, ◌==◌, take, drop, All, Bool-cases, ap,
}
use keycell.Prelude.Bytes.{Bytes}
use keycell.Prelude.Utf8.High.{IsHigh, is_broken, decode_rune-IsHigh, decode_rune_size}
use keycell.Prelude.Utf8.{decode_rune, runes_from, runes, any_rune, valid_string}

hex_value-hex_digit : (d : ℕ) → d < 16 → hex_value (hex_digit d) ≡ some d
unfolding hex_value hex_digit
hex_value-hex_digit d h = ground arith

hex_pair : (c : ℕ) → (0 + c / 16) * 16 + c % 16 ≡ c
hex_pair c = omega arith

hex_loop_control :
    (c : ℕ) (s : Bytes)
    → c < 32
    → hex_loop 4 0 (b'0' ∷ b'0' ∷ hex_digit (c / 16) ∷ hex_digit (c % 16) ∷ s) ≡ some c
unfolding hex_loop hex_value
hex_loop_control c s h =
    rw
      (
        hex_loop,
        hex_value-hex_digit (c / 16) (omega arith),
        hex_value-hex_digit (c % 16) (omega arith),
        hex_pair c,
      )
      refl

unquote_rune_control :
    (c : ℕ) (s : Bytes)
    → c < 32
    → unquote_rune (b'\\' ∷ b'u' ∷ b'0' ∷ b'0' ∷ hex_digit (c / 16) ∷ hex_digit (c % 16) ∷ s)
      ≡ ok (c, 6)
unfolding unquote_rune hex4
unquote_rune_control c s h = rw (unquote_rune, hex4, hex_loop_control c s h) (ground arith)

-- The escape of a control character.
escape_control :
    (c : ℕ) (s : Bytes)
    → c < 32
    → escape (b'u' ∷ b'0' ∷ b'0' ∷ hex_digit (c / 16) ∷ hex_digit (c % 16) ∷ s) ≡ ok (c ∷ [], 5)
unfolding escape append_rune
escape_control c s h = rw (unquote_rune_control c s h) (ground arith)

before_quote-snoc : (s : Bytes) → before_quote (s ++ b'"' ∷ []) ≡ some s
unfolding before_quote
before_quote-snoc [] = refl
before_quote-snoc (c ∷ []) = refl
before_quote-snoc (c ∷ d ∷ s) = rw (before_quote-snoc (d ∷ s)) refl

abbrev IsPlain : Bytes → Type 0
IsPlain b = All (λ (c : ℕ). c ≢ b'\\') b

-- Bytes that are no backslash stand for themselves.
unquote_from-plain :
    (b s t : Bytes) → IsPlain b → unquote_from 0 s ≡ ok t → unquote_from 0 (b ++ s) ≡ ok (b ++ t)
unfolding unquote_from before
unquote_from-plain [] s t p h = h
unquote_from-plain (c ∷ b) s t p h = ground (arith, unquote_from-plain b s t p.1 h)

-- One step of unquote on an escape.
unquote_escape :
    (u b t : Bytes) (n : ℕ)
    → escape u ≡ ok (b, n)
    → unquote_from n u ≡ ok t
    → unquote_from 0 (b'\\' ∷ u) ≡ ok (b ++ t)
unfolding unquote_from before
unquote_escape u b t n e h = rw (e, h) refl

abbrev control : ℕ → Bytes → Bytes
control c s = b'u' ∷ b'0' ∷ b'0' ∷ hex_digit (c / 16) ∷ hex_digit (c % 16) ∷ s

-- One step on an ASCII byte.
quote_ascii :
    (c : ℕ) (s : Bytes)
    → c < 0x80
    → unquote_from 0 (quote_from 0 s) ≡ ok s
    → unquote_from 0 (quote_from 0 (c ∷ s)) ≡ ok (c ∷ s)
unfolding quote_from unquote_from before escape
quote_ascii c s h ih =
    let rest = quote_from 0 s in
    elim (Bool-cases (c == b'"' || c == b'\\')) [
      | inl e ↦ rw e (unquote_escape (c ∷ rest) (c ∷ []) s 1 (ground arith) ih)
      | inr e ↦ rw e (elim (Bool-cases (c == b'\n')) [
        | inl d ↦ rw d (ground (arith, unquote_escape (b'n' ∷ rest) (c ∷ []) s 1 (ground arith) ih))
        | inr d ↦ rw d (elim (Bool-cases (c == b'\r')) [
          | inl f ↦
              rw f (ground (arith, unquote_escape (b'r' ∷ rest) (c ∷ []) s 1 (ground arith) ih))
          | inr f ↦ rw f (elim (Bool-cases (c == b'\t')) [
            | inl g ↦
                rw g (ground (arith, unquote_escape (b't' ∷ rest) (c ∷ []) s 1 (ground arith) ih))
            | inr g ↦ rw g (elim (Bool-cases (ltb c 0x20)) [
              | inl k ↦ rw k (
                  unquote_escape (control c rest) (c ∷ []) s 5
                    (escape_control c rest (ground arith)) ih)
              | inr k ↦ rw k (ground arith)
            ])
          ])
        ])
      ])
    ]

suc_less : (n : ℕ) → suc n - 1 ≡ n
suc_less n = omega arith

take-drop : (n : ℕ) (c : ℕ) (s : Bytes) → 1 ≤ n → take n (c ∷ s) ++ drop (n - 1) s ≡ c ∷ s
take-drop zero c s h = absurd (omega arith)
take-drop (suc n) c s h = rw (suc_less n) (ap (λ t. c ∷ t) (go n s))
  where
    go : (n : ℕ) (s : Bytes) → take n s ++ drop n s ≡ s
    go zero s = refl
    go (suc n) [] = refl
    go (suc n) (x ∷ s) = ap (λ t. x ∷ t) (go n s)

high-IsPlain : (s : Bytes) → IsHigh s → IsPlain s
high-IsPlain [] h = tt
high-IsPlain (c ∷ s) h = ((λ e. omega arith), high-IsPlain s h.1)

-- One step on a rune past ASCII.
quote_high :
    (c : ℕ) (s : Bytes)
    → 0x80 ≤ c
    → is_broken (decode_rune c s) ≡ false
    → unquote_from 0 (quote_from ((decode_rune c s).size - 1) s)
      ≡ ok (drop ((decode_rune c s).size - 1) s)
    → unquote_from 0 (quote_from 0 (c ∷ s)) ≡ ok (c ∷ s)
unfolding quote_from
quote_high c s h v ih =
    let n = (decode_rune c s).size in
    let plain = high-IsPlain (take n (c ∷ s)) (decode_rune-IsHigh c s h v) in
    let whole =
      unquote_from-plain (take n (c ∷ s)) (quote_from (n - 1) s) (drop (n - 1) s) plain ih in
    ground (arith, take-drop n c s (decode_rune_size c s), whole)

ascii_size : (c : ℕ) (s : Bytes) → c < 0x80 → decode_rune c s ≡ record { point = c; size = 1 }
unfolding decode_rune
ascii_size c s h = ground arith

rest_ascii :
    (c : ℕ) (s : Bytes)
    → c < 0x80
    → any_rune is_broken (runes_from 0 (c ∷ s)) ≡ false
    → any_rune is_broken (runes_from 0 s) ≡ false
unfolding any_rune runes_from
rest_ascii c s h v =
    let w : is_broken (decode_rune c s)
          || any_rune is_broken (runes_from ((decode_rune c s).size - 1) s)
        ≡ false =
      v in
    rest (rw (ascii_size c s h) at w)
  where
    rest :
        is_broken (record { point = c; size = 1 }) || any_rune is_broken (runes_from 0 s) ≡ false
        → any_rune is_broken (runes_from 0 s) ≡ false
    rest w = ground arith

quote_from_lem :
    (k : ℕ) (b : Bytes)
    → any_rune is_broken (runes_from k b) ≡ false
    → unquote_from 0 (quote_from k b) ≡ ok (drop k b)
unfolding quote_from unquote_from runes_from any_rune
quote_from_lem zero [] v = refl
quote_from_lem (suc k) [] v = refl
quote_from_lem (suc k) (c ∷ s) v = quote_from_lem k s v
quote_from_lem zero (c ∷ s) v = elim (Bool-cases (ltb c 0x80)) [
  | inl e ↦ quote_ascii c s (ground arith) (quote_from_lem 0 s (rest_ascii c s (ground arith) v))
  | inr e ↦
      quote_high c s (ground arith) (ground arith)
        (quote_from_lem ((decode_rune c s).size - 1) s (ground arith))
]

-- unquote reads back every valid UTF-8 value that quote writes.
pub unquote-quote : (b : Bytes) → valid_string b ≡ true → unquote (quote b) ≡ ok b
unfolding unquote quote valid_string runes
unquote-quote b v = rw (before_quote-snoc (quote_from 0 b)) (quote_from_lem 0 b (ground arith))
