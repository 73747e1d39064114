-- ===== src/DockerHelper/Quote.antt =====
-- quote, unquote and unquoteRune of docker-credential-keycell: a JSON string literal for the bytes
-- of a secret, and back.
pub mod RoundTrip
use keycell.Prelude.{
  ℕ, zero, suc, ◌+◌, ◌-◌, ◌*◌, ◌/◌, ◌%◌, Bool, true, false, not, ◌&&◌, ◌||◌, List, [], ◌∷◌, ◌++◌,
  Option, none, some, Result, ok, err, ◌>>=◌, if◌then◌else◌, ltb, leb, ◌==◌, take,
}
use keycell.Prelude.Bytes.{Bytes, text}
use keycell.Prelude.Utf8.{Rune, decode_rune, rune_error}

-- The errors of unquote.
pub data Problem : Type 0 where
  not_a_string dangling_escape bad_hex lone_surrogate bad_pair : Problem
  bad_escape : ℕ → Problem

-- hex[d] of quote, for d < 16
unfoldable pub hex_digit : ℕ → ℕ
hex_digit d = if ltb d 10 then b'0' + d else b'a' + (d - 10)

-- The digit of a byte, in hex4 of unquoteRune.
unfoldable pub hex_value : ℕ → Option ℕ
hex_value c =
    if leb b'0' c && leb c b'9'
    then some (c - b'0')
    else if leb b'a' c && leb c b'f'
    then some (c - b'a' + 10)
    else if leb b'A' c && leb c b'F'
    then some (c - b'A' + 10)
    else none

-- The loop of hex4 over `n` digits, and what they leave.
unfoldable pub hex_loop : ℕ → ℕ → Bytes → Option ℕ
unfolding hex_value
hex_loop zero r s = some r
hex_loop (suc n) r [] = none
hex_loop (suc n) r (c ∷ s) = elim (hex_value c) [ none ↦ none | some d ↦ hex_loop n (r * 16 + d) s ]

-- hex4
unfoldable pub hex4 : Bytes → Option ℕ
unfolding hex_loop
hex4 [] = none
hex4 (b ∷ []) = none
hex4 (b ∷ u ∷ s) = if not (b == b'\\') || not (u == b'u') then none else hex_loop 4 0 s

-- utf16.IsSurrogate
abbrev pub is_surrogate : ℕ → Bool
is_surrogate r = leb 0xd800 r && ltb r 0xe000

-- utf16.DecodeRune
unfoldable pub decode_pair : ℕ → ℕ → ℕ
decode_pair r1 r2 =
    if (leb 0xd800 r1 && ltb r1 0xdc00) && (leb 0xdc00 r2 && ltb r2 0xe000)
    then (r1 - 0xd800) * 0x400 + (r2 - 0xdc00) + 0x1_0000
    else rune_error

drop6 : Bytes → Bytes
drop6 (a ∷ b ∷ c ∷ d ∷ e ∷ f ∷ s) = s
drop6 s = []

-- unquoteRune: the rune and the bytes it takes
unfoldable pub unquote_rune : Bytes → Result Problem (ℕ × ℕ)
unfolding hex4 decode_pair drop6
unquote_rune s = elim (hex4 s) [
  | none ↦ err bad_hex
  | some r ↦ if not (is_surrogate r) then ok (r, 6) else elim (hex4 (drop6 s)) [
    | none ↦ err lone_surrogate
    | some r2 ↦
        let joined = decode_pair r r2 in
        if joined == rune_error then err bad_pair else ok (joined, 12)
  ]
]

-- utf8.AppendRune, for a rune that is no surrogate
unfoldable pub append_rune : ℕ → Bytes
append_rune r =
    if ltb r 0x80
    then r ∷ []
    else if ltb r 0x800
    then (0xc0 + r / 0x40) ∷ (0x80 + r % 0x40) ∷ []
    else if ltb r 0x1_0000
    then (0xe0 + r / 0x1000) ∷ (0x80 + r / 0x40 % 0x40) ∷ (0x80 + r % 0x40) ∷ []
    else (0xf0 + r / 0x4_0000)
      ∷ (0x80 + r / 0x1000 % 0x40)
      ∷ (0x80 + r / 0x40 % 0x40)
      ∷ (0x80 + r % 0x40)
      ∷ []

-- The switch over what follows a backslash: the bytes it stands for, and how many bytes it takes.
unfoldable pub escape : Bytes → Result Problem (Bytes × ℕ)
unfolding unquote_rune append_rune
escape [] = err dangling_escape
escape (e ∷ t) =
    if e == b'"' || (e == b'\\' || e == b'/')
    then ok (e ∷ [], 1)
    else if e == b'b'
    then ok (8 ∷ [], 1)
    else if e == b'f'
    then ok (12 ∷ [], 1)
    else if e == b'n'
    then ok (b'\n' ∷ [], 1)
    else if e == b'r'
    then ok (b'\r' ∷ [], 1)
    else if e == b't'
    then ok (b'\t' ∷ [], 1)
    else if e == b'u'
    then elim (unquote_rune (b'\\' ∷ e ∷ t)) [
      | err p ↦ err p
      | ok (r, n) ↦ ok (append_rune r, n - 1)
    ]
    else err (bad_escape e)

-- What unquote has so far, in front of the rest.
unfoldable pub before : Bytes → Result Problem Bytes → Result Problem Bytes
before b (err p) = err p
before b (ok s) = ok (b ++ s)

-- The loop of unquote. `skip` bytes belong to the escape before.
unfoldable pub unquote_from : ℕ → Bytes → Result Problem Bytes
unfolding escape before
unquote_from skip [] = ok []
unquote_from (suc skip) (c ∷ s) = unquote_from skip s
unquote_from zero (c ∷ s) =
    let plain = unquote_from 0 s in
    if not (c == b'\\')
    then before (c ∷ []) plain
    else elim (escape s) [ err p ↦ err p | ok (b, n) ↦ before b (unquote_from n s) ]

-- What stands before a quotation mark at the end.
unfoldable pub before_quote : Bytes → Option Bytes
before_quote [] = none
before_quote (c ∷ []) = if c == b'"' then some [] else none
before_quote (c ∷ d ∷ s) = elim (before_quote (d ∷ s)) [ none ↦ none | some t ↦ some (c ∷ t) ]

-- unquote
unfoldable pub unquote : Bytes → Result Problem Bytes
unfolding unquote_from before_quote
unquote [] = err not_a_string
unquote (c ∷ s) =
    if not (c == b'"')
    then err not_a_string
    else elim (before_quote s) [ none ↦ err not_a_string | some t ↦ unquote_from 0 t ]

-- The loop of quote. `skip` bytes belong to the rune before.
unfoldable pub quote_from : ℕ → Bytes → Bytes
unfolding hex_digit
quote_from skip [] = []
quote_from (suc skip) (c ∷ s) = quote_from skip s
quote_from zero (c ∷ s) =
    let rest = quote_from 0 s in
    let r = decode_rune c s in
    let after = quote_from (r.size - 1) s in
    if c == b'"' || c == b'\\'
    then b'\\' ∷ c ∷ rest
    else if c == b'\n'
    then b'\\' ∷ b'n' ∷ rest
    else if c == b'\r'
    then b'\\' ∷ b'r' ∷ rest
    else if c == b'\t'
    then b'\\' ∷ b't' ∷ rest
    else if ltb c 0x20
    then b'\\' ∷ b'u' ∷ b'0' ∷ b'0' ∷ hex_digit (c / 16) ∷ hex_digit (c % 16) ∷ rest
    else if ltb c 0x80
    then c ∷ rest
    else if r.point == rune_error && r.size == 1
    then 0xef ∷ 0xbf ∷ 0xbd ∷ after
    else take r.size (c ∷ s) ++ after

-- quote
unfoldable pub quote : Bytes → Bytes
unfolding quote_from
quote b = b'"' ∷ (quote_from 0 b ++ b'"' ∷ [])
