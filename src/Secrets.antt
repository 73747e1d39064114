-- ===== src/Secrets.antt =====
-- The commands store, get, delete and list of cmd/keycell/secrets.go, over the client's operations.
-- The prompts and the wiping of the value are left out: `Input` is what they gave.
pub mod Syntax
pub mod Attributes
pub mod Outcomes
pub mod Deletes
use keycell.Client.{Api, Failure, Secret, Sentinel, sentinel, not_found, locked, answered}
use keycell.Client.Exit.{
  Exit, Note, success, fail, misuse, silent, exit_error, one_name, needs_name, exclusive,
  bad_attribute, repeated_attribute, already_exists, attribute_not_set, no_value, empty_value,
  no_output, names_not_found, takes_no_arguments, daemon_locked,
}
use keycell.Daemon.Store.{Filter}
use keycell.Import.{is_listed}
use keycell.Prelude.{
  ℕ, Bool, true, false, not, ◌&&◌, ◌||◌, List, [], ◌∷◌, ◌++◌, map, Option, none, some, Result, ok,
  err, if◌then◌else◌, ◌==◌, ◌>>=◌, ◌>>◌,
}
use keycell.Prelude.Bytes.{Bytes, text, equal, cut}
use keycell.Prelude.Maps.{Map, lookup, insert}
use keycell.Prelude.Text.{sort_strings}
use keycell.Secrets.Syntax.{parse_attrs, format_attrs, trim_newline, ends_in_newline, one_arg}

-- Where the value of a store comes from: a prompt at a terminal, or stdin; `none` is an error.
pub data Input : Type 0 where
  terminal piped : Option Bytes → Input

pub record StoreFlags : Type 0 where
  pub args : List Bytes
  pub kind : Bytes
  pub attrs : List Bytes
  pub no_overwrite : Bool

is_terminal : Input → Bool
is_terminal (terminal v) = true
is_terminal (piped v) = false

unfoldable pub value_of : Input → Option Bytes
unfolding trim_newline
value_of (terminal v) = v
value_of (piped none) = none
value_of (piped (some v)) = some (trim_newline v)

pub record GetFlags : Type 0 where
  pub args : List Bytes
  pub attr : Option Bytes
  pub json : Bool

pub record ListFlags : Type 0 where
  pub args : List Bytes
  pub kind : Bytes
  pub prefix : Bytes
  pub attrs : List Bytes
  pub long : Bool
  pub json : Bool

-- What the commands use of other packages: whether the daemon is locked, by Client.Status, the
-- JSON of a listing, and the table with the times as text.
pub record Output (S : Type 0) : Type 0 where
  pub is_locked : S → Result Failure Bool
  pub json_one : Secret → Option Bytes
  pub json_list : List Secret → Option Bytes
  pub table : List (Bytes × Bytes × Bytes × Bytes) → Bytes
  pub local_time : ℕ → Bytes
  pub writes : Bool
  pub to_terminal : Bool

abbrev pub printed : Bytes → Exit
printed b = record { code = 0; out = b; note = silent }

-- writeJSON
write_json : Option Bytes → Exit
write_json none = fail no_output
write_json (some b) = printed b

-- The names of a listing, each on a line.
unfoldable pub name_lines : List Secret → Bytes
name_lines [] = []
name_lines (s ∷ ss) = s.name ++ b'\n' ∷ name_lines ss

-- How delete ends, when only missing names were reported.
unfoldable pub finish : List Bytes → Exit
finish [] = success
finish missing = fail (names_not_found missing)

is_set : Option Bytes → Bool
is_set none = false
is_set (some a) = true

module _ {S : Type 0} (api : Api S) where
  -- One name of the loop of delete: whether it was there, or the error that ends the run.
  unfoldable pub attempt : S → Bytes → S × Result Failure Bool
  attempt st n =
      let (st', r) = api.delete st n in
      elim r [
        | ok _ ↦ (st', ok true)
        | err e ↦ elim (sentinel e) [
          | some Sentinel.not_found ↦ (st', ok false)
          | some _ ↦ (st', err e)
          | none ↦ (st', err e)
        ]
      ]

  -- The loop of delete: `missing` is what was reported so far, and is left out of an error that ends
  -- the run.
  unfoldable pub delete_all : List Bytes → List Bytes → S → S × Exit
  unfolding attempt finish
  delete_all missing [] st = (st, finish missing)
  delete_all missing (n ∷ ns) st =
      let go = delete_all missing ns (attempt st n).0 in
      let miss = delete_all (missing ++ n ∷ []) ns (attempt st n).0 in
      elim (attempt st n).1 [
        | ok true ↦ go
        | ok false ↦ miss
        | err e ↦ ((attempt st n).0, exit_error e)
      ]

  -- delete
  unfoldable pub delete : List Bytes → S → S × Exit
  unfolding delete_all
  delete [] st = (st, misuse needs_name)
  delete (n ∷ ns) st = elim (api.connect st) [
    | err e ↦ (st, exit_error e)
    | ok _ ↦ delete_all [] (n ∷ ns) st
  ]

module _ {S : Type 0} (api : Api S) (o : Output S) where
  -- The checks of store before it asks for the value.
  unfoldable pub may_store : Bool → Bool → Bytes → S → Result Exit (Unit {0})
  unfolding is_listed exit_error
  may_store true interactive n st =
      elim (api.list st (record { kind = []; prefix = n; attributes = [] })) [
        | err e ↦ err (exit_error e)
        | ok ss ↦ if is_listed n ss then err (fail (already_exists n)) else ok tt
      ]
  may_store false true n st = elim (o.is_locked st) [
    | err e ↦ err (exit_error e)
    | ok true ↦ err (fail daemon_locked)
    | ok false ↦ ok tt
  ]
  may_store false false n st = ok tt

  stored : S × Result Failure (Unit {0}) → S × Exit
  stored (st, ok _) = (st, success)
  stored (st, err e) = (st, exit_error e)

  -- Store with the value that was read.
  send : Bytes → Bytes → Map Bytes → S → Option Bytes → S × Exit
  unfolding stored
  send n kind attrs st none = (st, fail no_value)
  send n kind attrs st (some []) = (st, fail empty_value)
  send n kind attrs st (some (b ∷ bs)) = stored (
      api.store st (record {
        name = n;
        kind = kind;
        attributes = attrs;
        value = b ∷ bs;
        created = 0;
        updated = 0;
      }))

  -- The checks in order: the name, the attributes, the connection, and what the daemon holds.
  unfoldable pub ready : StoreFlags → Bool → S → Result Exit (Bytes × Map Bytes)
  unfolding may_store one_arg parse_attrs
  ready f interactive st = do
    n ← one_arg f.args
    attrs ← parse_attrs f.attrs
    elim (api.connect st) [
      | err e ↦ err (exit_error e)
      | ok _ ↦ do may_store f.no_overwrite interactive n st; ok (n, attrs)
    ]

  -- store
  unfoldable pub store : StoreFlags → Input → S → S × Exit
  unfolding ready send value_of is_terminal
  store f input st = elim (ready f (is_terminal input) st) [
    | err x ↦ (st, x)
    | ok (n, attrs) ↦ send n f.kind attrs st (value_of input)
  ]

  -- The value as get prints it.
  unfoldable pub print_value : Bytes → Exit
  unfolding ends_in_newline
  print_value v =
      if not o.writes
      then fail no_output
      else printed (if o.to_terminal && not (ends_in_newline v) then v ++ b'\n' ∷ [] else v)

  show : GetFlags → Secret → Exit
  unfolding print_value write_json
  show f s = elim f.attr [
    | some k ↦ elim (lookup k s.attributes) [
      | none ↦ fail (attribute_not_set k)
      | some v ↦ printed (v ++ b'\n' ∷ [])
    ]
    | none ↦ if f.json then write_json (o.json_one s) else print_value s.value
  ]

  -- get
  unfoldable pub get : GetFlags → S → Exit
  unfolding show is_set one_arg
  get f st = elim (one_arg f.args) [
    | err x ↦ x
    | ok n ↦ if is_set f.attr && f.json then misuse exclusive else elim (api.connect st) [
      | err e ↦ exit_error e
      | ok _ ↦ elim (api.get st n) [ err e ↦ exit_error e | ok s ↦ show f s ]
    ]
  ]

  row : Secret → Bytes × Bytes × Bytes × Bytes
  row s = (s.name, s.kind, o.local_time s.updated, format_attrs s.attributes)

  listing : ListFlags → List Secret → Exit
  unfolding name_lines write_json row
  listing f ss =
      if f.json
      then write_json (o.json_list ss)
      else if f.long
      then elim ss [ [] ↦ success | s ∷ rest ↦ printed (o.table (map row (s ∷ rest))) ]
      else printed (name_lines ss)

  -- list
  unfoldable pub list : ListFlags → S → Exit
  unfolding listing parse_attrs
  list f st = elim f.args [
    | a ∷ more ↦ misuse takes_no_arguments
    | [] ↦ if f.long && f.json then misuse exclusive else elim (parse_attrs f.attrs) [
      | err x ↦ x
      | ok attrs ↦ elim (api.connect st) [
        | err e ↦ exit_error e
        | ok _ ↦
            elim (api.list st (record { kind = f.kind; prefix = f.prefix; attributes = attrs })) [
              | err e ↦ exit_error e
              | ok ss ↦ listing f ss
            ]
      ]
    ]
  ]
