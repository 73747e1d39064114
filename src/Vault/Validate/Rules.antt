-- ===== src/Vault/Validate/Rules.antt =====
-- The rules of `ValidateSecret` as a predicate, independent of the order of the checks.
use keycell.Prelude.{
  ℕ, ◌≤◌, ◌≡◌, ◌≢◌, refl, ◌↔◌, ◌⊎◌, inl, inr, true, false, [], ◌∷◌, All, length, arith, ok,
  Bool-cases, >>=-eq-ok,
}
use keycell.Prelude.Bytes.{Bytes, equal_iff, equal}
use keycell.Prelude.Utf8.{valid_string, trim_space}
use keycell.Vault.Model.{Secret}
use keycell.Vault.Validate.{
  Field, Reason, max_name_len, max_kind_len, max_value_len, has_control, validate_text, slug_byte,
  slug_bytes, validate_kind, validate_attributes, validate_secret, validate_name, is_slug,
  validate_value, Map, attribute, empty_name, name_too_long,
}

-- A name or an attribute's value.
pub record IsText (s : Bytes) : Type 0 where
  pub not_empty : s ≢ []
  pub fits : length s ≤ max_name_len
  pub is_utf8 : valid_string s ≡ true
  pub printable : has_control s ≡ false
  pub trimmed : trim_space s ≡ s

-- One of [a-z0-9-].
abbrev pub IsSlugByte : ℕ → Type 0
IsSlugByte c = (b'a' ≤ c) × (c ≤ b'z') ⊎ (b'0' ≤ c) × (c ≤ b'9') ⊎ (c ≡ b'-')

-- [a-z0-9-]{1,64}
pub record IsSlug (s : Bytes) : Type 0 where
  pub not_empty : 1 ≤ length s
  pub fits : length s ≤ max_kind_len
  pub each : All IsSlugByte s

abbrev pub IsAttribute : Bytes × Bytes → Type 0
IsAttribute a = IsSlug a.0 × IsText a.1

pub record IsValid (n : Bytes) (s : Secret) : Type 0 where
  pub named : IsText n
  pub kinded : IsSlug s.kind
  pub attributed : All IsAttribute s.attributes
  pub sized : length s.value ≤ max_value_len

validate_text-IsText :
    (f : Field) (s : Bytes) (a b : Reason) → validate_text f s a b ≡ ok tt → IsText s
unfolding validate_text
validate_text-IsText f s a b h = grind (arith, equal_iff s [], equal_iff (trim_space s) s)

IsText-validate_text :
    (f : Field) (s : Bytes) (a b : Reason) → IsText s → validate_text f s a b ≡ ok tt
unfolding validate_text
IsText-validate_text f s a b h = ground (arith, equal_iff s [], equal_iff (trim_space s) s)

slug_byte_iff : (c : ℕ) → (slug_byte c ≡ true) ↔ IsSlugByte c
slug_byte_iff c = ground arith

slug_bytes-All : (s : Bytes) → slug_bytes s ≡ true → All IsSlugByte s
unfolding slug_bytes
slug_bytes-All [] h = tt
slug_bytes-All (c ∷ s) h = elim (Bool-cases (slug_byte c)) [
  | inl e ↦ ((slug_byte_iff c).0 e, slug_bytes-All s (rw e at h))
  | inr e ↦ absurd (cc (rw e at h))
]

All-slug_bytes : (s : Bytes) → All IsSlugByte s → slug_bytes s ≡ true
unfolding slug_bytes
All-slug_bytes [] h = refl
All-slug_bytes (c ∷ s) h = rw ((slug_byte_iff c).1 h.0) (All-slug_bytes s h.1)

is_slug-IsSlug : (s : Bytes) → is_slug s ≡ true → IsSlug s
unfolding is_slug equal
is_slug-IsSlug [] h = absurd (cc h)
is_slug-IsSlug (c ∷ s) h = record {
  not_empty = omega arith;
  fits = ground arith;
  each = slug_bytes-All (c ∷ s) (ground arith);
}

IsSlug-is_slug : (s : Bytes) → IsSlug s → is_slug s ≡ true
unfolding is_slug equal
IsSlug-is_slug [] h = absurd (omega (arith, h.not_empty))
IsSlug-is_slug (c ∷ s) h = ground (arith, All-slug_bytes (c ∷ s) h.each, h.fits)

validate_attributes-All : (m : Map Bytes) → validate_attributes m ≡ ok tt → All IsAttribute m
unfolding validate_attributes
validate_attributes-All [] h = tt
validate_attributes-All ((k, v) ∷ m) h = elim (Bool-cases (is_slug k)) [
  | inl e ↦
      let (u, first, rest) =
        >>=-eq-ok (validate_text (attribute k) v empty_name name_too_long)
          (λ _. validate_attributes m) (rw e at h) in
      ((is_slug-IsSlug k e, validate_text-IsText _ v _ _ first), validate_attributes-All m rest)
  | inr e ↦ absurd (cc (rw e at h))
]

All-validate_attributes : (m : Map Bytes) → All IsAttribute m → validate_attributes m ≡ ok tt
unfolding validate_attributes
All-validate_attributes [] h = refl
All-validate_attributes ((k, v) ∷ m) h =
    rw (IsSlug-is_slug k h.0.0, IsText-validate_text (attribute k) v empty_name name_too_long h.0.1)
      (All-validate_attributes m h.1)

pub validate_name-IsText : (n : Bytes) → validate_name n ≡ ok tt → IsText n
unfolding validate_name
validate_name-IsText n h = validate_text-IsText _ n _ _ h

pub IsText-validate_name : (n : Bytes) → IsText n → validate_name n ≡ ok tt
unfolding validate_name
IsText-validate_name n h = IsText-validate_text _ n _ _ h

pub IsSlug-validate_kind : (k : Bytes) → IsSlug k → validate_kind k ≡ ok tt
unfolding validate_kind
IsSlug-validate_kind k h = rw (IsSlug-is_slug k h)

validate_kind-IsSlug : (k : Bytes) → validate_kind k ≡ ok tt → IsSlug k
unfolding validate_kind
validate_kind-IsSlug k h = elim (Bool-cases (is_slug k)) [
  | inl e ↦ is_slug-IsSlug k e
  | inr e ↦ absurd (cc (rw e at h))
]

pub validate_secret-IsValid : (n : Bytes) (s : Secret) → validate_secret n s ≡ ok tt → IsValid n s
unfolding validate_secret validate_value
validate_secret-IsValid n s h =
    let (_, a, h1) = >>=-eq-ok (validate_name n) _ h in
    let (_, b, h2) = >>=-eq-ok (validate_kind s.kind) _ h1 in
    let (_, c, d) = >>=-eq-ok (validate_attributes s.attributes) _ h2 in
    record {
      named = validate_name-IsText n a;
      kinded = validate_kind-IsSlug s.kind b;
      attributed = validate_attributes-All s.attributes c;
      sized = ground (arith, d);
    }

pub IsValid-validate_secret : (n : Bytes) (s : Secret) → IsValid n s → validate_secret n s ≡ ok tt
unfolding validate_secret validate_value
IsValid-validate_secret n s h =
    rw
      (
        IsText-validate_name n h.named,
        IsSlug-validate_kind s.kind h.kinded,
        All-validate_attributes s.attributes h.attributed,
      )
      (ground (arith, h.sized))

-- ValidateSecret accepts exactly the secrets whose name is a text of 1 to 256 bytes in UTF-8
-- without control characters or outer white space, whose kind and attribute keys match
-- [a-z0-9-]{1,64}, whose attribute values are such texts, and whose value is at most 1 MiB.
pub validate_secret_iff : (n : Bytes) (s : Secret) → (validate_secret n s ≡ ok tt) ↔ IsValid n s
validate_secret_iff n s = (validate_secret-IsValid n s, IsValid-validate_secret n s)
