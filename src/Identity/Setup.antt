-- ===== src/Identity/Setup.antt =====
-- internal/identity/setup.go: the creation of the data directory and the changes of the passphrase.
pub mod Loads
pub mod Changes
pub mod Kept
pub mod Start
pub mod Works
pub mod Stuck
use keycell.Atomicfile.{Files, Faults}
use keycell.Identity.{parse}
use keycell.Identity.Forms.{
  Form, encrypted, unprotected, absent, Dir, Failure, identity, make_dir_failed, exists,
  generate_failed, remove_failed, wrong_form, vault_write, Scrypt, is_there, detect, load,
  write_encrypted, write_plain,
}
use keycell.Prelude.{
  ℕ, Bool, true, false, not, ◌&&◌, ◌||◌, [], Option, none, some, Result, ok, err, ◌>>=◌, map_err,
  guard, if◌then◌else◌,
}
use keycell.Prelude.Bytes.{Bytes}
use keycell.Vault.File
use keycell.Vault.File.{Codec, Disk}
use keycell.Vault.Model

-- What the calls of the system and of age answer during one operation: `generated` is the new key.
pub record Env : Type 0 where
  pub reads : Bool
  pub makes_dir : Bool
  pub removes : Bool
  pub generated : Option Bytes
  pub random : ℕ
  pub faults : Faults
  pub vault_random : ℕ
  pub vault_faults : Faults

-- form == want, for Go's string type Form
unfoldable pub same_form : Form → Form → Bool
same_form encrypted encrypted = true
same_form unprotected unprotected = true
same_form absent absent = true
same_form a b = false

module _ {I : Type 0} (c : Codec I) (k : Scrypt) where
  -- load
  unfoldable pub load_as : Env → Dir → Form → Bytes → Result Failure Bytes
  unfolding load same_form detect
  load_as e dir want pass = do
    form ← detect dir
    if not (same_form form want) then err (wrong_form form want) else load c k e.reads dir pass

  -- remove of identity.txt and of identity.age
  unfoldable pub remove_txt : Env → Dir → Dir × Result Failure (Unit {0})
  remove_txt e dir =
      if e.removes
      then (record dir { txt = record (dir.txt) { file = none } }, ok tt)
      else (dir, err remove_failed)

  unfoldable pub remove_age : Env → Dir → Dir × Result Failure (Unit {0})
  remove_age e dir =
      if e.removes
      then (record dir { age = record (dir.age) { file = none } }, ok tt)
      else (dir, err remove_failed)

  -- ChangePassphrase
  unfoldable pub change_passphrase : Env → Dir → Bytes → Bytes → Dir × Result Failure (Unit {0})
  unfolding load_as write_encrypted
  change_passphrase e dir old new = elim (load_as e dir encrypted old) [
    | err x ↦ (dir, err x)
    | ok encoded ↦
        let (after, r) = write_encrypted c k e.faults e.random dir.age encoded new in
        (record dir { age = after }, r)
  ]

  -- SetPassphrase
  unfoldable pub set_passphrase : Env → Dir → Bytes → Dir × Result Failure (Unit {0})
  unfolding load_as write_encrypted remove_txt
  set_passphrase e dir pass = elim (load_as e dir unprotected []) [
    | err x ↦ (dir, err x)
    | ok encoded ↦
        let (after, r) = write_encrypted c k e.faults e.random dir.age encoded pass in
        let dir' : Dir = record dir { age = after } in
        elim r [ err x ↦ (dir', err x) | ok _ ↦ remove_txt e dir' ]
  ]

  -- RemovePassphrase
  unfoldable pub remove_passphrase : Env → Dir → Bytes → Dir × Result Failure (Unit {0})
  unfolding load_as write_plain remove_age
  remove_passphrase e dir pass = elim (load_as e dir encrypted pass) [
    | err x ↦ (dir, err x)
    | ok encoded ↦
        let (after, r) = write_plain e.faults dir.txt encoded in
        let dir' : Dir = record dir { txt = after } in
        elim r [ err x ↦ (dir', err x) | ok _ ↦ remove_age e dir' ]
  ]

  -- Whether Init finds a directory that was set up before.
  unfoldable pub is_set_up : Dir → Bool
  unfolding detect
  is_set_up dir = elim (detect dir) [
    | err x ↦ true
    | ok absent ↦ is_there dir.vault.file
    | ok _ ↦ true
  ]

  -- The identity file that Init writes: identity.txt for a nil passphrase.
  unfoldable pub write_identity : Env → Dir → Option Bytes → Bytes → Dir × Result Failure (Unit {0})
  unfolding write_plain write_encrypted
  write_identity e dir none encoded =
      let (after, r) = write_plain e.faults dir.txt encoded in (record dir { txt = after }, r)
  write_identity e dir (some pass) encoded =
      let (after, r) = write_encrypted c k e.faults e.random dir.age encoded pass in
      (record dir { age = after }, r)

  abbrev pub vault_disk : Env → Dir → Disk
  vault_disk e dir = record {
    files = dir.vault;
    faults = e.vault_faults;
    opens = e.reads;
    random = e.vault_random;
  }

  -- The empty vault that Init writes last.
  unfoldable pub write_vault : Env → Dir → I → Dir × Result Failure (Unit {0})
  write_vault e dir i =
      let (after, r) = File.write c (vault_disk e dir) i Model.new in
      (record dir { vault = after }, map_err vault_write r)

  -- Init, once the directory is known to be empty and a key is there.
  unfoldable pub fill : Env → Dir → Option Bytes → Bytes → Dir × Result Failure (Unit {0})
  unfolding write_identity write_vault parse
  fill e dir pass encoded = elim (parse c encoded) [
    | err x ↦ (dir, err (identity x))
    | ok i ↦
        let (after, r) = write_identity e dir pass encoded in
        elim r [ err x ↦ (after, err x) | ok _ ↦ write_vault e after i ]
  ]

  -- Init
  unfoldable pub init : Env → Dir → Option Bytes → Dir × Result Failure (Unit {0})
  unfolding is_set_up fill
  init e dir pass =
      if not e.makes_dir
      then (dir, err make_dir_failed)
      else if is_set_up dir
      then (dir, err exists)
      else elim e.generated [
        | none ↦ (dir, err generate_failed)
        | some encoded ↦ fill e dir pass encoded
      ]
