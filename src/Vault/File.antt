-- ===== src/Vault/File.antt =====
-- internal/vault/file.go, and Encode and Decode of internal/vault/vault.go.
pub mod RoundTrip
use keycell.Atomicfile.{Files, Faults, Step, write_file}
use keycell.Prelude.{
  ℕ, Bool, true, false, not, List, [], Option, none, some, Result, ok, err, ◌>>=◌, ◌>>◌, map_err,
  guard, if◌then◌else◌, ◌≡◌,
}
use keycell.Prelude.Bytes.{Bytes}
use keycell.Prelude.Int.{ℤ, gtb}
use keycell.Vault.Model.{Vault, current}

-- What age.Decrypt and reading its plaintext give.
pub data Opened : Type 0 where
  plain : Bytes → Opened
  no_match : Opened
  corrupt : Opened

-- age (filippo.io/age) and the use of `encoding/json` on the schema. `seal` takes the random
-- bytes that an encryption draws. `head` reads the version alone; `unmarshal` is the strict
-- decoder, with whether the document ends there.
pub record Codec (Identity : Type 0) : Type 0 where
  pub parse : Bytes → Option Identity
  pub seal : Identity → ℕ → Bytes → Option Bytes
  pub open_with : Identity → Bytes → Opened
  pub marshal : Vault → Option Bytes
  pub head : Bytes → Option ℤ
  pub unmarshal : Bytes → Option (Vault × Bool)

-- What the code relies on: an identity opens what it sealed, and JSON reads back what it wrote.
pub record IsFaithful {Identity : Type 0} (c : Codec Identity) : Type 0 where
  pub opens :
      (i : Identity) (r : ℕ) (p e : Bytes) → c.seal i r p ≡ some e → c.open_with i e ≡ plain p
  pub heads : (v : Vault) (b : Bytes) → c.marshal v ≡ some b → c.head b ≡ some v.version
  pub reads : (v : Vault) (b : Bytes) → c.marshal v ≡ some b → c.unmarshal b ≡ some (v, true)

pub data Error : Type 0 where
  not_exist open_failed wrong_identity decrypt_failed : Error
  bad_json unsupported_version trailing_data : Error
  encode_failed encrypt_failed : Error
  write_failed : Step → Error

-- How os.Open ends on a file that is there.
pub record Disk : Type 0 where
  pub files : Files
  pub faults : Faults
  pub opens : Bool
  pub random : ℕ

abbrev pub or_else {ℓ} : {A : Type ℓ} → Option A → Error → Result Error A
or_else none e = err e
or_else (some a) e = ok a

module _ {Identity : Type 0} (c : Codec Identity) where
  -- Encode
  unfoldable pub encode : Vault → Result Error Bytes
  encode v = or_else (c.marshal v) encode_failed

  -- Decode
  unfoldable pub decode : Bytes → Result Error Vault
  decode b = do
    version ← or_else (c.head b) bad_json
    guard (not (gtb version current)) unsupported_version
    (v, at_end) ← or_else (c.unmarshal b) bad_json
    guard at_end trailing_data
    ok (record v { version = current })

  unfoldable pub decrypt : Identity → Bytes → Result Error Bytes
  decrypt i e = elim (c.open_with i e) [
    | plain p ↦ ok p
    | no_match ↦ err wrong_identity
    | corrupt ↦ err decrypt_failed
  ]

  -- Read
  unfoldable pub read : Disk → Identity → Result Error Vault
  unfolding decode decrypt
  read d i = do
    e ← or_else d.files.file not_exist
    guard d.opens open_failed
    b ← decrypt i e
    decode b

  -- Write: the files afterwards, and the error.
  unfoldable pub write : Disk → Identity → Vault → Files × Result Error (Unit {0})
  unfolding encode
  write d i v = elim (encode v) [
    | err e ↦ (d.files, err e)
    | ok b ↦ elim (c.seal i d.random b) [
      | none ↦ (d.files, err encrypt_failed)
      | some e ↦ let (fs, r) = write_file d.faults d.files e true in (fs, map_err write_failed r)
    ]
  ]
