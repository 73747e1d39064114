-- ===== src/Daemon/Store.antt =====
-- internal/daemon/store.go: the operations on the vault file, under the session's read lock.
-- Writers hold `writeMu` and the file is replaced by a rename, so each operation is one step on
-- the files. The wiping of plaintexts and the logging are left out.
pub mod Effects
pub mod Valid
pub mod Listing
pub mod Replay
pub mod Answers
pub mod Shows
pub mod Refines
use keycell.Atomicfile.{Files}
use keycell.Daemon.Session.{Session, with_identity}
use keycell.Prelude.{
  ℕ, Bool, true, false, not, ◌&&◌, List, [], ◌∷◌, Option, none, some, Result, ok, err, ◌>>=◌, ◌>>◌,
  map_err, if◌then◌else◌, length,
}
use keycell.Prelude.Bytes.{Bytes, equal, less, has_prefix}
use keycell.Prelude.Maps.{Map, lookup, insert, delete}
use keycell.Vault.File
use keycell.Vault.File.{Codec, Disk}
use keycell.Vault.Model.{Vault}
use keycell.Vault.Model
use keycell.Vault.Validate.{
  Invalid, validate_name, validate_kind, validate_attributes, validate_secret,
}

-- One record as the operations return it; a listing leaves `value` empty.
pub record Secret : Type 0 where
  pub name : Bytes
  pub kind : Bytes
  pub attributes : Map Bytes
  pub value : Bytes
  pub created : ℕ
  pub updated : ℕ

pub record Filter : Type 0 where
  pub kind : Bytes
  pub prefix : Bytes
  pub attributes : Map Bytes

pub data Error : Type 0 where
  locked not_found : Error
  invalid_argument : Invalid → Error
  vault : File.Error → Error

-- toSecret
unfoldable pub to_secret : Bytes → Model.Secret → Secret
to_secret n s = record {
  name = n;
  kind = s.kind;
  attributes = s.attributes;
  value = [];
  created = s.created;
  updated = s.updated;
}

unfoldable pub attributes_match : Map Bytes → Map Bytes → Bool
attributes_match [] attrs = true
attributes_match ((k, want) ∷ f) attrs =
    let rest = attributes_match f attrs in
    elim (lookup k attrs) [ none ↦ false | some got ↦ if equal got want then rest else false ]

-- Filter.matches
unfoldable pub matches : Filter → Bytes → Model.Secret → Bool
unfolding attributes_match
matches f n s =
    if not (equal f.kind []) && not (equal s.kind f.kind)
    then false
    else if not (has_prefix n f.prefix)
    then false
    else attributes_match f.attributes s.attributes

-- The loop of List over the map.
unfoldable pub collect : Filter → Map Model.Secret → List Secret
collect f [] = []
collect f ((n, s) ∷ m) =
    let rest = collect f m in if matches f n s then to_secret n s ∷ rest else rest

-- sort.Slice by name
unfoldable pub place : Secret → List Secret → List Secret
place x [] = x ∷ []
place x (y ∷ ys) = if less y.name x.name then y ∷ place x ys else x ∷ y ∷ ys

unfoldable pub sort : List Secret → List Secret
unfolding place
sort [] = []
sort (x ∷ xs) = place x (sort xs)

-- The closure of Store: `now` is the clock, read once the secret is valid.
unfoldable pub put : ℕ → Bytes → Bytes → Map Bytes → Bytes → Vault → Result Error Vault
put now n kind attrs value v = do
  let s : Model.Secret = record {
    kind = kind;
    value = value;
    attributes = attrs;
    created = now;
    updated = now;
  }
  map_err invalid_argument (validate_secret n s)
  let created : ℕ = elim (lookup n v.secrets) [ none ↦ now | some old ↦ old.created ]
  ok (record v { secrets = insert n (record s { created = created }) v.secrets })

-- The closure of Delete.
unfoldable pub remove : Bytes → Vault → Result Error Vault
remove n v = do
  map_err invalid_argument (validate_name n)
  elim (lookup n v.secrets) [
    | none ↦ err not_found
    | some _ ↦ ok (record v { secrets = delete n v.secrets })
  ]

module _ {I : Type 0} (c : Codec I) where
  unfoldable pub read : Disk → I → Result Error Vault
  read d i = map_err vault (File.read c d i)

  unfoldable pub find : Disk → Bytes → I → Result Error Secret
  unfolding read
  find d n i = do
    map_err invalid_argument (validate_name n)
    v ← read d i
    elim (lookup n v.secrets) [
      | none ↦ err not_found
      | some s ↦ ok (record (to_secret n s) { value = s.value })
    ]

  -- Get
  unfoldable pub get : Session I → Disk → Bytes → Result Error Secret
  unfolding find
  get s d n = with_identity locked s (find d n)

  unfoldable pub select : Disk → Filter → I → Result Error (List Secret)
  unfolding read
  select d f i = do
    (if equal f.kind [] then ok tt else map_err invalid_argument (validate_kind f.kind))
    map_err invalid_argument (validate_attributes f.attributes)
    v ← read d i
    ok (sort (collect f v.secrets))

  -- List
  unfoldable pub list : Session I → Disk → Filter → Result Error (List Secret)
  unfolding select
  list s d f = with_identity locked s (select d f)

  modified : Disk → I → Result Error Vault → Files × Result Error (Unit {0})
  modified d i (err e) = (d.files, err e)
  modified d i (ok v) = let (fs, r) = File.write c d i v in (fs, map_err vault r)

  -- write: the read-modify-write cycle
  unfoldable pub write :
      Session I → Disk → (Vault → Result Error Vault) → Files × Result Error (Unit {0})
  unfolding modified read
  write s d modify = elim s.id [
    | none ↦ (d.files, err locked)
    | some i ↦ modified d i (do v ← read d i; modify v)
  ]

  -- Store
  unfoldable pub store :
      Session I → Disk → ℕ → Bytes → Bytes → Map Bytes → Bytes → Files × Result Error (Unit {0})
  unfolding write
  store s d now n kind attrs value = write s d (put now n kind attrs value)

  -- Delete
  unfoldable pub delete_secret : Session I → Disk → Bytes → Files × Result Error (Unit {0})
  unfolding write
  delete_secret s d n = write s d (remove n)
