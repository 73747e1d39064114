-- ===== src/Import.antt =====
-- The import of cmd/keycell/transfer.go: the document, and the loop over its names in order. The lines on skipped names are left out.
pub mod Overwrites
use keycell.Client
use keycell.Client.{Api, Sentinel, sentinel}
use keycell.Client.Exit.{
  Exit, success, fail, misuse, failed, bad_input, needs_name, one_name, exit_error,
}
use keycell.Daemon.Store.{Filter}
use keycell.Prelude.{
  Bool, true, false, ◌||◌, List, [], ◌∷◌, map, Option, none, some, Result, ok, err, if◌then◌else◌,
}
use keycell.Prelude.Bytes.{Bytes, equal}
use keycell.Prelude.Maps.{Map, lookup}
use keycell.Prelude.Text.{sort_strings}
use keycell.Vault.File
use keycell.Vault.File.{Codec}
use keycell.Vault.Model.{Secret, Vault}

abbrev pub everything : Filter
everything = record { kind = []; prefix = []; attributes = [] }

-- skip[name]
unfoldable pub is_listed : Bytes → List Client.Secret → Bool
is_listed n [] = false
is_listed n (s ∷ ss) = equal s.name n || is_listed n ss

abbrev pub key_of : Bytes × Secret → Bytes
key_of e = e.0

-- The names of the document, sorted.
abbrev pub names : Map Secret → List Bytes
names m = sort_strings (map key_of m)

abbrev pub sent : Bytes → Secret → Client.Secret
sent n s = record {
  name = n;
  kind = s.kind;
  attributes = s.attributes;
  value = s.value;
  created = 0;
  updated = 0;
}

-- The error of a Store that failed.
unfoldable pub stopped : Client.Failure → Exit
unfolding exit_error
stopped e = elim (sentinel e) [
  | some Sentinel.locked ↦ exit_error e
  | some Sentinel.not_running ↦ exit_error e
  | some _ ↦ fail (failed e)
  | none ↦ fail (failed e)
]

-- Where the document comes from: the named file, or stdin; `none` is an error of the read.
pub data Source : Type 0 where
  named piped : Option Bytes → Source
  terminal : Source

-- readImport
unfoldable pub read_import : Source → Result Exit Bytes
read_import (named (some b)) = ok b
read_import (named none) = err (fail bad_input)
read_import (piped (some b)) = ok b
read_import (piped none) = err (fail bad_input)
read_import terminal = err (misuse needs_name)

-- importCmd before it connects: `many` says that more than one argument was given.
unfoldable pub read_document : {I : Type 0} → Codec I → Bool → Source → Result Exit Vault
unfolding read_import File.decode
read_document c true src = err (misuse one_name)
read_document c false src = elim (read_import src) [
  | err x ↦ err x
  | ok b ↦ elim (File.decode c b) [ err e ↦ err (fail bad_input) | ok v ↦ ok v ]
]

module _ {S : Type 0} (api : Api S) where
  -- One Store of the loop; every name is one of the document.
  unfoldable pub send : Map Secret → Bytes → S → S × Result Client.Failure (Unit {0})
  send m n st = elim (lookup n m) [ none ↦ (st, ok tt) | some s ↦ api.store st (sent n s) ]

  -- The loop over the names.
  unfoldable pub store_all : List Client.Secret → Map Secret → List Bytes → S → S × Exit
  unfolding stopped is_listed send
  store_all skip m [] st = (st, success)
  store_all skip m (n ∷ ns) st =
      let skipped = store_all skip m ns st in
      let rest = store_all skip m ns (send m n st).0 in
      if is_listed n skip
      then skipped
      else elim (send m n st).1 [ ok _ ↦ rest | err e ↦ ((send m n st).0, stopped e) ]

  -- What --no-overwrite asks the daemon first.
  unfoldable pub existing : Bool → S → Result Client.Failure (List Client.Secret)
  existing no_overwrite st = if no_overwrite then api.list st everything else ok []

  -- importCmd, once the document is decoded
  unfoldable pub import_secrets : Bool → Vault → S → S × Exit
  unfolding store_all existing
  import_secrets no_overwrite v st = elim (api.connect st) [
    | err e ↦ (st, exit_error e)
    | ok _ ↦ elim (existing no_overwrite st) [
      | err e ↦ (st, exit_error e)
      | ok skip ↦ store_all skip v.secrets (names v.secrets) st
    ]
  ]

  -- importCmd
  unfoldable pub import_cmd : {I : Type 0} → Codec I → Bool → Source → Bool → S → S × Exit
  unfolding read_document import_secrets
  import_cmd c many src no_overwrite st = elim (read_document c many src) [
    | err x ↦ (st, x)
    | ok v ↦ import_secrets no_overwrite v st
  ]
