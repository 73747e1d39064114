-- ===== src/Export.antt =====
-- The export of cmd/keycell/transfer.go, over the client's operations. The wiping of the values and
-- of the document is left out.
pub mod Document
use keycell.Client
use keycell.Client.{Api, Failure}
use keycell.Client.Exit.{
  Exit, fail, misuse, silent, exit_error, takes_no_arguments, no_output, not_encoded,
}
use keycell.Import.{everything}
use keycell.Prelude.{Bool, List, [], ◌∷◌, ◌++◌, Result, ok, err, if◌then◌else◌}
use keycell.Prelude.Bytes.{Bytes}
use keycell.Prelude.Maps.{Map, insert}
use keycell.Vault.File
use keycell.Vault.File.{Codec}
use keycell.Vault.Model.{Secret, Vault, new}

-- The record of the document for a secret.
abbrev pub record_of : Client.Secret → Secret
record_of s = record {
  kind = s.kind;
  value = s.value;
  attributes = s.attributes;
  created = s.created;
  updated = s.updated;
}

module _ {S : Type 0} (api : Api S) {I : Type 0} (c : Codec I) where
  -- The loop over the listing: `m` are the secrets so far.
  unfoldable pub fetch_all : S → List Client.Secret → Map Secret → Result Failure (Map Secret)
  fetch_all st [] m = ok m
  fetch_all st (s ∷ ss) m = elim (api.get st s.name) [
    | err e ↦ err e
    | ok full ↦ fetch_all st ss (insert s.name (record_of full) m)
  ]

  -- The document, encoded and written.
  unfoldable pub write_document : Bool → Vault → Exit
  unfolding File.encode
  write_document writes v = elim (File.encode c v) [
    | err e ↦ fail not_encoded
    | ok b ↦
        if writes then record { code = 0; out = b ++ b'\n' ∷ []; note = silent } else fail no_output
  ]

  -- export: `writes` says whether stdout takes the document.
  unfoldable pub export : List Bytes → Bool → S → Exit
  unfolding fetch_all write_document
  export (a ∷ args) writes st = misuse takes_no_arguments
  export [] writes st = elim (api.connect st) [
    | err e ↦ exit_error e
    | ok _ ↦ elim (api.list st everything) [
      | err e ↦ exit_error e
      | ok ss ↦ elim (fetch_all st ss []) [
        | err e ↦ exit_error e
        | ok m ↦ write_document writes (record new { secrets = m })
      ]
    ]
  ]
