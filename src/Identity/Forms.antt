-- ===== src/Identity/Forms.antt =====
-- internal/identity/identity.go: the identity as identity.age, which a passphrase protects, or as
-- identity.txt. The wiping of the passphrase and of the copies is left out.
use keycell.Atomicfile.{Files, Faults, Step, write_file}
use keycell.Identity
use keycell.Identity.{parse, wrong_passphrase, not_found, ambiguous, malformed}
use keycell.Prelude.{
  ℕ, Bool, true, false, ◌&&◌, [], ◌∷◌, ◌++◌, Option, none, some, Result, ok, err, ◌>>=◌, map_err,
  if◌then◌else◌,
}
use keycell.Prelude.Bytes.{Bytes, text, equal}
use keycell.Prelude.Utf8.{trim_space}
use keycell.Vault.File
use keycell.Vault.File.{Codec, Opened, plain, no_match, corrupt}

abbrev pub encrypted_file : Bytes
encrypted_file = text "identity.age"

abbrev pub plain_file : Bytes
plain_file = text "identity.txt"

pub data Form : Type 0 where
  encrypted unprotected absent : Form

-- The data directory: each file with its backup and its temporary file.
pub record Dir : Type 0 where
  pub age : Files
  pub txt : Files
  pub vault : Files

pub data Failure : Type 0 where
  identity : Identity.Error → Failure
  unreadable decrypt_failed empty_passphrase encrypt_failed : Failure
  write_failed : Step → Failure
  make_dir_failed exists generate_failed remove_failed : Failure
  wrong_form : Form → Form → Failure
  vault_write : File.Error → Failure

-- age with a passphrase: `seal_pass` gives none on any error of the encryption, and `open_pass` what
-- decrypting a file and reading its plaintext gives.
pub record Scrypt : Type 0 where
  pub seal_pass : Bytes → ℕ → Bytes → Option Bytes
  pub open_pass : Bytes → Bytes → Opened

-- What reading a file gives.
pub data Content : Type 0 where
  missing broken : Content
  found : Bytes → Content

-- The content of a file; `reads` says whether a file that is there opens.
unfoldable pub content_of : Bool → Option Bytes → Content
content_of reads none = missing
content_of true (some b) = found b
content_of false (some b) = broken

-- exists, for a file
abbrev pub is_there : Option Bytes → Bool
is_there none = false
is_there (some b) = true

-- Detect
unfoldable pub detect : Dir → Result Failure Form
detect dir =
    if is_there dir.age.file && is_there dir.txt.file
    then err (identity ambiguous)
    else if is_there dir.age.file
    then ok encrypted
    else if is_there dir.txt.file
    then ok unprotected
    else ok absent

module _ {I : Type 0} (c : Codec I) (k : Scrypt) where
  -- validate
  unfoldable pub validate : Bytes → Result Failure Bytes
  unfolding parse
  validate b =
      let out = trim_space b in elim (parse c out) [ err e ↦ err (identity e) | ok _ ↦ ok out ]

  -- The plaintext of identity.age.
  unfoldable pub decrypted : Opened → Result Failure Bytes
  unfolding validate
  decrypted (plain b) = validate b
  decrypted no_match = err (identity wrong_passphrase)
  decrypted corrupt = err decrypt_failed

  plain_content : Content → Result Failure Bytes
  unfolding validate
  plain_content missing = err (identity not_found)
  plain_content broken = err unreadable
  plain_content (found b) = validate b

  age_content : Bytes → Content → Result Failure Bytes
  unfolding decrypted
  age_content pass missing = err (identity not_found)
  age_content pass broken = err unreadable
  age_content pass (found b) =
      if equal pass [] then err (identity wrong_passphrase) else decrypted (k.open_pass pass b)

  -- LoadFile, on the base name of the path and what reading the file gives.
  unfoldable pub load_file : Bytes → Content → Bytes → Result Failure Bytes
  unfolding plain_content age_content
  load_file base file pass =
      if equal base plain_file
      then plain_content file
      else if equal base encrypted_file
      then age_content pass file
      else err (identity malformed)

  load_form : Bool → Dir → Bytes → Form → Result Failure Bytes
  unfolding load_file content_of
  load_form reads dir pass unprotected = load_file plain_file (content_of reads dir.txt.file) pass
  load_form reads dir pass encrypted = load_file encrypted_file (content_of reads dir.age.file) pass
  load_form reads dir pass absent = err (identity not_found)

  -- Load
  unfoldable pub load : Bool → Dir → Bytes → Result Failure Bytes
  unfolding load_form detect
  load reads dir pass = do form ← detect dir; load_form reads dir pass form

  -- WriteEncrypted
  unfoldable pub write_encrypted :
      Faults → ℕ → Files → Bytes → Bytes → Files × Result Failure (Unit {0})
  write_encrypted faults random fs encoded pass =
      if equal pass [] then (fs, err empty_passphrase) else elim (k.seal_pass pass random encoded) [
        | none ↦ (fs, err encrypt_failed)
        | some b ↦ let (after, r) = write_file faults fs b true in (after, map_err write_failed r)
      ]

-- WritePlain
unfoldable pub write_plain : Faults → Files → Bytes → Files × Result Failure (Unit {0})
write_plain faults fs encoded =
    let (after, r) = write_file faults fs (trim_space encoded ++ b'\n' ∷ []) true in
    (after, map_err write_failed r)
