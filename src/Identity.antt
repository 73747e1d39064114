-- ===== src/Identity.antt =====
-- internal/identity: the errors of identity.go and Parse. Forms has the two files of the identity,
-- Setup the operations on the data directory.
pub mod Forms
pub mod Setup
use keycell.Prelude.{none, some, Result, ok, err}
use keycell.Prelude.Bytes.{Bytes}
use keycell.Prelude.Utf8.{trim_space}
use keycell.Vault.File.{Codec}

pub data Error : Type 0 where
  wrong_passphrase not_found ambiguous malformed : Error

-- Parse
unfoldable pub parse : {Identity : Type 0} → Codec Identity → Bytes → Result Error Identity
parse c encoded = elim (c.parse (trim_space encoded)) [ none ↦ err malformed | some i ↦ ok i ]
