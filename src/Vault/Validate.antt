-- ===== src/Vault/Validate.antt =====
-- internal/vault/validate.go: the rules that every secret satisfies before it is written.
pub mod Rules
use keycell.Prelude.{
  ℕ, ◌*◌, ◌<◌, Bool, true, false, ◌&&◌, ◌||◌, not, List, [], ◌∷◌, length, ltb, leb, ◌==◌,
  if◌then◌else◌, Result, ok, err, ◌>>=◌, ◌>>◌,
}
use keycell.Prelude.Bytes.{Bytes, equal}
use keycell.Prelude.Maps.{Map}
use keycell.Prelude.Utf8.{valid_string, runes, any_rune, is_control, trim_space}
use keycell.Vault.Model.{Secret}

abbrev pub max_name_len : ℕ
max_name_len = 256

abbrev pub max_kind_len : ℕ
max_kind_len = 64

abbrev pub max_value_len : ℕ
max_value_len = 1024 * 1024

-- The sentinels `ErrEmptyName` to `ErrValueTooLarge`.
pub data Reason : Type 0 where
  empty_name name_too_long invalid_utf8 control_char edge_whitespace : Reason
  invalid_kind invalid_attr_key value_too_large : Reason

-- What the message names in front of the reason.
pub data Field : Type 0 where
  name : Field
  kind : Bytes → Field
  attribute : Bytes → Field
  value : ℕ → Field

pub record Invalid : Type 0 where
  pub field : Field
  pub reason : Reason

abbrev pub fail {ℓ} : {A : Type ℓ} → Field → Reason → Result Invalid A
fail f r = err (record { field = f; reason = r })

unfoldable pub has_control : Bytes → Bool
unfolding runes any_rune
has_control s = any_rune (λ r. is_control r.point) (runes s)

unfoldable pub validate_text : Field → Bytes → Reason → Reason → Result Invalid (Unit {0})
unfolding has_control
validate_text f s empty too_long =
    if equal s []
    then fail f empty
    else if ltb max_name_len (length s)
    then fail f too_long
    else if not (valid_string s)
    then fail f invalid_utf8
    else if has_control s
    then fail f control_char
    else if not (equal (trim_space s) s)
    then fail f edge_whitespace
    else ok tt

unfoldable pub validate_name : Bytes → Result Invalid (Unit {0})
unfolding validate_text
validate_name s = validate_text name s empty_name name_too_long

-- The test of one byte in the loop of `isSlug`.
abbrev pub slug_byte : ℕ → Bool
slug_byte c = not ((ltb c b'a' || ltb b'z' c) && ((ltb c b'0' || ltb b'9' c) && not (c == b'-')))

unfoldable pub slug_bytes : Bytes → Bool
slug_bytes [] = true
slug_bytes (c ∷ s) = let rest = slug_bytes s in if slug_byte c then rest else false

unfoldable pub is_slug : Bytes → Bool
unfolding slug_bytes
is_slug s = if equal s [] || ltb max_kind_len (length s) then false else slug_bytes s

unfoldable pub validate_kind : Bytes → Result Invalid (Unit {0})
unfolding is_slug
validate_kind k = if not (is_slug k) then fail (kind k) invalid_kind else ok tt

unfoldable pub validate_attributes : Map Bytes → Result Invalid (Unit {0})
unfolding is_slug validate_text
validate_attributes [] = ok tt
validate_attributes ((k, v) ∷ attrs) =
    let rest = validate_attributes attrs in
    if not (is_slug k)
    then fail (attribute k) invalid_attr_key
    else do validate_text (attribute k) v empty_name name_too_long; rest

unfoldable pub validate_value : Bytes → Result Invalid (Unit {0})
validate_value v =
    if ltb max_value_len (length v) then fail (value (length v)) value_too_large else ok tt

unfoldable pub validate_secret : Bytes → Secret → Result Invalid (Unit {0})
unfolding validate_name validate_kind validate_attributes validate_value
validate_secret n s = do
  validate_name n
  validate_kind s.kind
  validate_attributes s.attributes
  validate_value s.value
