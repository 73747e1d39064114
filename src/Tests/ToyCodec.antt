-- ===== src/Tests/ToyCodec.antt =====
-- A concrete instance of `Codec`, by which the theorems about the vault are applied: a tag in
-- place of an encryption, and lengths in front of lists in place of JSON.
use keycell.Prelude.{
  ℕ, zero, suc, [], ◌∷◌, ◌++◌, Option, none, some, ◌≡◌, refl, arith, Bool, true, false, length,
  if◌then◌else◌, ◌==◌,
}
use keycell.Prelude.Bytes.{Bytes, text, equal}
use keycell.Prelude.Int.{ℤ, pos, negsuc}
use keycell.Prelude.Maps.{Map}
use keycell.Vault.File.{Codec, IsFaithful, Opened, plain, no_match, corrupt}
use keycell.Vault.Model.{Secret, Vault}

infixl 5 ◌>>=◌
abbrev pub ◌>>=◌ : {A B : Type 0} → Option A → (A → Option B) → Option B
none >>= f = none
some a >>= f = f a

unfoldable pub put_bytes : Bytes → Bytes → Bytes
put_bytes b rest = length b ∷ (b ++ rest)

unfoldable pub split : ℕ → Bytes → Option (Bytes × Bytes)
split zero s = some ([], s)
split (suc n) [] = none
split (suc n) (c ∷ s) = elim (split n s) [ none ↦ none | some (a, r) ↦ some (c ∷ a, r) ]

unfoldable pub get_bytes : Bytes → Option (Bytes × Bytes)
unfolding split
get_bytes [] = none
get_bytes (n ∷ s) = split n s

split-append : (b rest : Bytes) → split (length b) (b ++ rest) ≡ some (b, rest)
unfolding split
split-append [] rest = refl
split-append (c ∷ b) rest = rw (split-append b rest)

pub get_bytes-put : (b rest : Bytes) → get_bytes (put_bytes b rest) ≡ some (b, rest)
unfolding get_bytes put_bytes
get_bytes-put b rest = split-append b rest

module _ {V : Type 0} (put_v : V → Bytes → Bytes) (get_v : Bytes → Option (V × Bytes)) where
  unfoldable pub put_entries : Map V → Bytes → Bytes
  put_entries [] rest = rest
  put_entries ((k, v) ∷ m) rest = put_bytes k (put_v v (put_entries m rest))

  unfoldable pub get_entries : ℕ → Bytes → Option (Map V × Bytes)
  get_entries zero s = some ([], s)
  get_entries (suc n) s = do
    (k, s1) ← get_bytes s
    (v, s2) ← get_v s1
    (m, s3) ← get_entries n s2
    some ((k, v) ∷ m, s3)

  unfoldable pub put_map : Map V → Bytes → Bytes
  unfolding put_entries
  put_map m rest = length m ∷ put_entries m rest

  unfoldable pub get_map : Bytes → Option (Map V × Bytes)
  unfolding get_entries
  get_map [] = none
  get_map (n ∷ s) = get_entries n s

  module _ (back : (v : V) (rest : Bytes) → get_v (put_v v rest) ≡ some (v, rest)) where
    pub get_map-put :
        (m : Map V) (rest : Bytes) → get_entries (length m) (put_entries m rest) ≡ some (m, rest)
    unfolding get_entries put_entries
    get_map-put [] rest = refl
    get_map-put ((k, v) ∷ m) rest = rw (
      get_bytes-put k (put_v v (put_entries m rest)),
      back v (put_entries m rest),
      get_map-put m rest,
    )

unfoldable pub put_secret : Secret → Bytes → Bytes
put_secret s rest =
    put_bytes s.kind
      (put_bytes s.value (put_map put_bytes get_bytes s.attributes (s.created ∷ s.updated ∷ rest)))

unfoldable pub times : Bytes → Bytes → Map Bytes → Bytes → Option (Secret × Bytes)
times k v a (c ∷ u ∷ rest) =
    some (record { kind = k; value = v; attributes = a; created = c; updated = u }, rest)
times k v a s = none

unfoldable pub get_secret : Bytes → Option (Secret × Bytes)
unfolding times
get_secret s = do
  (k, s1) ← get_bytes s
  (v, s2) ← get_bytes s1
  (a, s3) ← get_map put_bytes get_bytes s2
  times k v a s3

get_secret-put : (s : Secret) (rest : Bytes) → get_secret (put_secret s rest) ≡ some (s, rest)
unfolding get_secret put_secret put_map get_map
get_secret-put s rest = simp (get_bytes-put, get_map-put put_bytes get_bytes get_bytes-put)

unfoldable pub put_version : ℤ → Bytes → Bytes
put_version (pos n) rest = 0 ∷ n ∷ rest
put_version (negsuc n) rest = 1 ∷ n ∷ rest

unfoldable pub get_version : Bytes → Option (ℤ × Bytes)
get_version (zero ∷ n ∷ rest) = some (pos n, rest)
get_version (suc m ∷ n ∷ rest) = some (negsuc n, rest)
get_version s = none

get_version-put : (v : ℤ) (rest : Bytes) → get_version (put_version v rest) ≡ some (v, rest)
unfolding get_version put_version
get_version-put (pos n) rest = refl
get_version-put (negsuc n) rest = refl

unfoldable pub ends : Bytes → Bool
ends [] = true
ends (c ∷ s) = false

unfoldable pub to_json : Vault → Bytes
unfolding put_version put_map put_secret put_bytes
to_json v = put_version v.version (put_map put_secret get_secret v.secrets [])

unfoldable pub head_of : Bytes → Option ℤ
unfolding get_version
head_of b = elim (get_version b) [ none ↦ none | some (v, rest) ↦ some v ]

unfoldable pub of_json : Bytes → Option (Vault × Bool)
unfolding get_version get_map get_secret get_bytes ends
of_json b = do
  (v, s1) ← get_version b
  (m, s2) ← get_map put_secret get_secret s1
  some (record { version = v; secrets = m }, ends s2)

unfoldable pub open_tag : ℕ → Bytes → Opened
open_tag i [] = corrupt
open_tag i (j ∷ p) = if i == j then plain p else no_match

-- The key "KEY" is identity 7, and "OTHER" is identity 8.
unfoldable pub parse_key : Bytes → Option ℕ
unfolding equal
parse_key b =
    if equal b (text "KEY") then some 7 else if equal b (text "OTHER") then some 8 else none

unfoldable pub toy : Codec ℕ
unfolding to_json head_of of_json open_tag parse_key
toy = record {
  parse = parse_key;
  seal = λ i r p. some (i ∷ p);
  open_with = open_tag;
  marshal = λ v. some (to_json v);
  head = head_of;
  unmarshal = of_json;
}

head_of-put : (x : ℤ) (rest : Bytes) → head_of (put_version x rest) ≡ some x
unfolding head_of put_version
head_of-put (pos n) rest = refl
head_of-put (negsuc n) rest = refl

toy-heads : (v : Vault) → head_of (to_json v) ≡ some v.version
unfolding to_json
toy-heads v = head_of-put v.version (put_map put_secret get_secret v.secrets [])

toy-reads : (v : Vault) → of_json (to_json v) ≡ some (v, true)
unfolding of_json to_json get_map put_map
toy-reads v = simp (get_version-put, get_map-put put_secret get_secret get_secret-put)

pub toy-IsFaithful : IsFaithful toy
unfolding toy
toy-IsFaithful = record {
  opens = λ i r p e h. ground arith;
  heads = λ v b h. let e : to_json v ≡ b = cc h in rw (← e) (toy-heads v);
  reads = λ v b h. let e : to_json v ≡ b = cc h in rw (← e) (toy-reads v);
}
