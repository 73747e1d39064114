-- ===== src/Exec.antt =====
-- cmd/keycell/exec.go: the mapping from environment variables to secrets, and the environment
-- that the command starts with. A read of the mapping file is taken to succeed once it is open; the wiping of the
-- values and the call of execve are left out.
pub mod Environment
use keycell.Client
use keycell.Client.{Api, Sentinel, sentinel}
use keycell.Prelude.{
  ℕ, ◌+◌, ◌^◌, Bool, true, false, not, ◌&&◌, ◌||◌, List, [], ◌∷◌, ◌++◌, Option, none, some, Result,
  ok, err, ◌>>=◌, map_err, if◌then◌else◌, leb, ◌==◌,
}
use keycell.Prelude.Bytes.{Bytes, text, equal, less, has_prefix, cut, contains_byte}
use keycell.Prelude.Maps.{Map, insert}
use keycell.Prelude.Text.{raw_lines, scan}
use keycell.Prelude.Utf8.{trim_space}

pub record EnvEntry : Type 0 where
  pub var : Bytes
  pub name : Bytes

-- The errors of parseEnvEntry.
pub data Problem : Type 0 where
  no_equals empty_variable : Problem
  invalid_variable : Bytes → Problem
  empty_secret : Problem

-- What ends the command before it starts anything; `misses` are the names that could not be read.
pub data Miss : Type 0 where
  unknown : Bytes → Miss
  refused : Bytes → Client.Failure → Miss

pub data Stop : Type 0 where
  in_line : ℕ → Problem → Stop
  line_too_long : Stop
  in_flag : Bytes → Problem → Stop
  daemon : Client.Failure → Stop
  misses : List Miss → Stop
  no_file : Stop

abbrev is_letter : ℕ → Bool
is_letter r = r == b'_' || ((leb b'a' r && leb r b'z') || (leb b'A' r && leb r b'Z'))

-- The loop of validEnvVar past the first rune. It goes over the bytes: a rune that is not ASCII
-- fails, and so does each of its bytes.
unfoldable pub var_rest : Bytes → Bool
var_rest [] = true
var_rest (c ∷ s) = let rest = var_rest s in (is_letter c || (leb b'0' c && leb c b'9')) && rest

-- validEnvVar
unfoldable pub valid_env_var : Bytes → Bool
unfolding var_rest
valid_env_var [] = false
valid_env_var (c ∷ s) = is_letter c && var_rest s

-- The checks of parseEnvEntry on the two halves.
unfoldable pub check_entry : Bytes → Bytes → Result Problem EnvEntry
check_entry k v =
    if equal k []
    then err empty_variable
    else if not (valid_env_var k)
    then err (invalid_variable k)
    else if equal v []
    then err empty_secret
    else ok (record { var = k; name = v })

-- parseEnvEntry
unfoldable pub parse_env_entry : Bytes → Result Problem EnvEntry
unfolding check_entry
parse_env_entry s = elim (cut b'=' s) [
  | none ↦ err no_equals
  | some (k, v) ↦ check_entry (trim_space k) (trim_space v)
]

-- The loop over the lines of the file, from line n.
unfoldable pub parse_file : ℕ → Bool → List Bytes → Map Bytes → Result Stop (Map Bytes)
parse_file n too_long [] m = if too_long then err line_too_long else ok m
parse_file n too_long (l ∷ ls) m =
    let line = trim_space l in
    let skipped = parse_file (n + 1) too_long ls m in
    if equal line [] || has_prefix line (text "#") then skipped else elim (parse_env_entry line) [
      | err p ↦ err (in_line n p)
      | ok e ↦ parse_file (n + 1) too_long ls (insert e.var e.name m)
    ]

-- The loop over the values of -e.
unfoldable pub parse_flags : List Bytes → Map Bytes → Result Stop (Map Bytes)
parse_flags [] m = ok m
parse_flags (v ∷ vs) m = elim (parse_env_entry v) [
  | err p ↦ err (in_flag v p)
  | ok e ↦ parse_flags vs (insert e.var e.name m)
]

unfoldable pub place_entry : EnvEntry → List EnvEntry → List EnvEntry
place_entry e [] = e ∷ []
place_entry e (x ∷ xs) = if less x.var e.var then x ∷ place_entry e xs else e ∷ x ∷ xs

-- The entries of the map, sorted by variable.
unfoldable pub entries : Map Bytes → List EnvEntry
unfolding place_entry
entries [] = []
entries ((k, v) ∷ m) = place_entry (record { var = k; name = v }) (entries m)

-- The file, when there is one: bufio.Scanner takes lines of less than 64 KiB.
unfoldable pub parse_given : Option Bytes → Result Stop (Map Bytes)
unfolding parse_file scan raw_lines
parse_given none = ok []
parse_given (some s) =
    let (ls, too_long) = scan (2 ^ 16) (raw_lines s) in parse_file 1 too_long ls []

-- parseEnvMapping
unfoldable pub parse_env_mapping : Option Bytes → List Bytes → Result Stop (List EnvEntry)
unfolding parse_given parse_flags entries
parse_env_mapping file flags = do
  from_file ← parse_given file
  all ← parse_flags flags from_file
  ok (entries all)

-- How os.Open ends on the mapping file, with its content.
pub data EnvFile : Type 0 where
  opened : Bytes → EnvFile
  not_there unreadable : EnvFile

-- execMapping: `explicit` says that --env-file names the file.
unfoldable pub exec_mapping : Bool → EnvFile → List Bytes → Result Stop (List EnvEntry)
unfolding parse_env_mapping
exec_mapping explicit (opened s) flags = parse_env_mapping (some s) flags
exec_mapping false not_there flags = parse_env_mapping none flags
exec_mapping true not_there flags = err no_file
exec_mapping explicit unreadable flags = err no_file

-- The key of an entry of an environment: what stands before the first =.
unfoldable pub key : Bytes → Bytes
key kv = elim (cut b'=' kv) [ none ↦ kv | some (k, v) ↦ k ]

-- Whether the mapping sets a variable.
unfoldable pub is_mapped : Bytes → List EnvEntry → Bool
is_mapped k [] = false
is_mapped k (e ∷ es) = equal e.var k || is_mapped k es

unfoldable pub unmapped : List Bytes → List EnvEntry → List Bytes
unfolding is_mapped key
unmapped [] m = []
unmapped (kv ∷ base) m =
    let rest = unmapped base m in if not (is_mapped (key kv) m) then kv ∷ rest else rest

-- mergeEnv
unfoldable pub merge_env : List Bytes → List EnvEntry → List Bytes → List Bytes
unfolding unmapped
merge_env base m secrets = unmapped base m ++ secrets

-- The entry of the environment for a secret.
abbrev pub assignment : EnvEntry → Client.Secret → Bytes
assignment e s = e.var ++ (b'=' ∷ s.value)

-- How the command ends: with an error, after a dry run, or as the program with its environment.
pub data Ending : Type 0 where
  no_command no_program checked : Ending
  stopped : Stop → Ending
  started : List Bytes → List Bytes → Ending

module _ {S : Type 0} (api : Api S) where
  -- What the loop of resolveEnv does with a failed Get: stop, or note the name and go on.
  unfoldable pub miss_of : EnvEntry → Client.Failure → Result Stop Miss
  miss_of e f = elim (sentinel f) [
    | none ↦ ok (refused e.name f)
    | some Sentinel.locked ↦ err (daemon f)
    | some Sentinel.not_running ↦ err (daemon f)
    | some Sentinel.not_found ↦ ok (unknown e.name)
    | some _ ↦ ok (refused e.name f)
  ]

  -- The loop of resolveEnv and its end.
  unfoldable pub fetch : S → List EnvEntry → List Bytes → List Miss → Result Stop (List Bytes)
  unfolding miss_of
  fetch st [] env [] = ok env
  fetch st [] env (m ∷ ms) = err (misses (m ∷ ms))
  fetch st (e ∷ es) env ms = elim (api.get st e.name) [
    | ok s ↦ fetch st es (env ++ assignment e s ∷ []) ms
    | err f ↦ elim (miss_of e f) [ err stop ↦ err stop | ok m ↦ fetch st es env (ms ++ m ∷ []) ]
  ]

  -- resolveEnv
  unfoldable pub resolve_env : S → List EnvEntry → Result Stop (List Bytes)
  unfolding fetch
  resolve_env st [] = ok []
  resolve_env st (e ∷ es) = elim (api.connect st) [
    | err f ↦ err (daemon f)
    | ok _ ↦ fetch st (e ∷ es) [] []
  ]

  -- What execve is called with, once the program is found.
  start : List Bytes → Bool → List Bytes → List EnvEntry → List Bytes → Ending
  unfolding merge_env
  start argv found base m secrets =
      if found then started argv (merge_env base m secrets) else no_program

  -- execCmd: `found` says that the program is found, and `base` is the environment. The lines of a
  -- dry run are left out.
  unfoldable pub exec_cmd :
      List Bytes → Bool → Result Stop (List EnvEntry) → Bool → List Bytes → S → Ending
  unfolding resolve_env start
  exec_cmd [] dry mapping found base st = no_command
  exec_cmd (a ∷ args) dry (err stop) found base st = stopped stop
  exec_cmd (a ∷ args) dry (ok m) found base st = elim (resolve_env st m) [
    | err stop ↦ stopped stop
    | ok secrets ↦ if dry then checked else start (a ∷ args) found base m secrets
  ]
