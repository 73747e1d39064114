-- ===== src/Secrets/Attributes.antt =====
-- The attributes of the command line.
use keycell.Prelude.{
  ◌≡◌, refl, sym, ap, ◌∙◌, arith, false, [], ◌∷◌, ◌++◌, map, none, some, ok, append-nil,
  append_assoc, Bool-cases, inl, inr, All,
}
use keycell.Prelude.Bytes.{Bytes, equal, cut, contains_byte, equal_iff}
use keycell.Prelude.Maps.{Map, IsMap, lookup, insert}
use keycell.Secrets.Syntax.{parse_attrs, parse_pairs, pair_of}

-- A key that can stand before the "=".
abbrev pub IsPlain : Bytes × Bytes → Type 0
IsPlain e = contains_byte b'=' e.0 ≡ false

cut-pair : (k v : Bytes) → contains_byte b'=' k ≡ false → cut b'=' (k ++ b'=' ∷ v) ≡ some (k, v)
unfolding cut contains_byte
cut-pair [] v h = refl
cut-pair (x ∷ k) v h = ground (arith, cut-pair k v)

lookup-append : (j : Bytes) (m l : Map Bytes) → lookup j m ≡ none → lookup j (m ++ l) ≡ lookup j l
unfolding lookup
lookup-append j [] l h = refl
lookup-append j ((k, v) ∷ m) l h = ground (arith, lookup-append j m l)

insert-new : (k v : Bytes) (m : Map Bytes) → lookup k m ≡ none → insert k v m ≡ m ++ (k, v) ∷ []
unfolding insert lookup
insert-new k v [] h = refl
insert-new k v ((j, w) ∷ m) h = ground (arith, insert-new k v m)

-- The keys of two maps differ.
AreApart : Map Bytes → Map Bytes → Type 0
AreApart m [] = Unit
AreApart m ((k, v) ∷ l) = (lookup k m ≡ none) × AreApart m l

apart-snoc :
    (k v : Bytes) (m l : Map Bytes)
    → lookup k l ≡ none
    → AreApart m l
    → AreApart (m ++ (k, v) ∷ []) l
unfolding AreApart lookup
apart-snoc k v m [] new h = tt
apart-snoc k v m ((j, w) ∷ l) new (out, h) = elim (Bool-cases (equal j k)) [
  | inl same ↦ absurd (ground arith)
  | inr other ↦ (
    lookup-append j m ((k, v) ∷ []) out ∙ ground (arith, equal_iff j k, equal_iff k j),
    apart-snoc k v m l (ground arith) h,
  )
]

parse_pairs-pairs :
    (m l : Map Bytes)
    → All IsPlain l
    → IsMap l
    → AreApart m l
    → parse_pairs m (map pair_of l) ≡ ok (m ++ l)
unfolding parse_pairs AreApart
parse_pairs-pairs m [] plain new apart = ap ok (sym (append-nil m))
parse_pairs-pairs m ((k, v) ∷ l) (no_sign, plain) (new, is_map) (out, apart) =
    rw (cut-pair k v no_sign, parse_pairs, out, insert-new k v m out)
      (parse_pairs-pairs (m ++ (k, v) ∷ []) l plain is_map (apart-snoc k v m l new apart)
        ∙ ap ok (append_assoc m ((k, v) ∷ []) l))

apart-nil : (l : Map Bytes) → AreApart [] l
unfolding AreApart lookup
apart-nil [] = tt
apart-nil ((k, v) ∷ l) = (refl, apart-nil l)

-- Attributes written as key=value, whose keys have no "=" and are all different, are read back by
-- parseAttrs, whatever their values.
pub parse_attrs-pairs :
    (m : Map Bytes) → All IsPlain m → IsMap m → parse_attrs (map pair_of m) ≡ ok m
unfolding parse_attrs
parse_attrs-pairs m plain is_map = parse_pairs-pairs [] m plain is_map (apart-nil m)
