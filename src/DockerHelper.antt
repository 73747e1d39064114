-- ===== src/DockerHelper.antt =====
-- cmd/docker-credential-keycell: docker's credential helper. Its requests and the secret for a
-- server; the four commands are in Commands. Reading stdin and writing stdout are taken to succeed;
-- the wiping of the secrets is left out.
pub mod Quote
pub mod Commands
use keycell.Client.{Api, Secret, Failure, Sentinel, sentinel}
use keycell.Daemon.Store.{Filter}
use keycell.DockerHelper.Quote.{Problem, quote, unquote}
use keycell.Prelude.{
  ℕ, ◌*◌, ◌^◌, Bool, true, false, not, ◌&&◌, ◌||◌, List, [], ◌∷◌, ◌++◌, map, Option, none, some,
  Result, ok, err, if◌then◌else◌, take,
}
use keycell.Prelude.Bytes.{Bytes, text, equal, has_prefix, cut, contains_byte, or_empty}
use keycell.Prelude.Maps.{Map, lookup, insert}
use keycell.Prelude.Text.{sort_strings}
use keycell.Prelude.Utf8.{trim_space}

abbrev pub kind : Bytes
kind = text "docker-registry"

abbrev pub max_request : ℕ
max_request = 64 * 2 ^ 10

-- The login that docker sends; `secret` is the JSON of its value, empty when there is none.
pub record StoreRequest : Type 0 where
  pub server_url : Bytes
  pub username : Bytes
  pub secret : Bytes

-- encoding/json: `request` decodes a login and fails on an unknown field; `string` and `object`
-- are json.Marshal.
pub record Json : Type 0 where
  pub request : Bytes → Option StoreRequest
  pub string : Bytes → Bytes
  pub object : Map Bytes → Bytes

pub data Trouble : Type 0 where
  no_server_url no_username no_secret bad_json no_match : Trouble
  whitespace : Bytes → Trouble
  bad_secret : Problem → Trouble
  ambiguous : List Bytes → Trouble
  daemon : Failure → Trouble

-- How a command ends: what it wrote to stdout, a hint about a locked daemon, and its error, all of
-- which exit with 1.
pub record End : Type 0 where
  pub out : Bytes
  pub hint : Bool
  pub error : Option Trouble

abbrev pub done : Bytes → End
done out = record { out = out; hint = false; error = none }

abbrev pub fail : Trouble → End
fail t = record { out = []; hint = false; error = some t }

-- readServerURL
unfoldable pub read_server_url : Bytes → Result Trouble Bytes
read_server_url stdin =
    let s = trim_space (take max_request stdin) in
    if equal s []
    then err no_server_url
    else if contains_byte b' ' s
        || (contains_byte b'\t' s || (contains_byte b'\r' s || contains_byte b'\n' s))
    then err (whitespace s)
    else ok s

-- readStoreRequest
unfoldable pub read_store_request : Json → Bytes → Result Trouble StoreRequest
read_store_request json stdin = elim (json.request (take max_request stdin)) [
  | none ↦ err bad_json
  | some r ↦
      if equal r.server_url []
      then err no_server_url
      else if equal r.username []
      then err no_username
      else if equal r.secret []
      then err no_secret
      else ok r
]

-- What follows the first "://".
unfoldable pub after_scheme : Bytes → Option Bytes
after_scheme [] = none
after_scheme (c ∷ s) =
    let rest = after_scheme s in
    elim (has_prefix (c ∷ s) (text "://")) [
      | true ↦ some (keycell.Prelude.drop 3 (c ∷ s))
      | false ↦ rest
    ]

abbrev or_all : Bytes → Option Bytes → Bytes
or_all s none = s
or_all s (some t) = t

-- secretName
unfoldable pub secret_name : Bytes → Bytes
unfolding after_scheme
secret_name server =
    let host = or_all server (after_scheme server) in
    let first : Bytes = elim (cut b'/' host) [ none ↦ host | some (a, b) ↦ a ] in
    text "docker/" ++ (if equal first [] then server else first)

abbrev pub name_of : Secret → Bytes
name_of s = s.name

-- The switch of match over the secrets it found.
unfoldable pub only : List Secret → Result Trouble Secret
only [] = err no_match
only (s ∷ []) = ok s
only (s ∷ t ∷ ss) = err (ambiguous (sort_strings (map name_of (s ∷ t ∷ ss))))

-- The filter of match.
abbrev pub server_filter : Bytes → Filter
server_filter server = record {
  kind = kind;
  prefix = [];
  attributes = (text "server", server) ∷ [];
}

-- The filter of list.
abbrev pub every_login : Filter
every_login = record { kind = kind; prefix = []; attributes = [] }

-- The loop of list.
unfoldable pub logins : List Secret → Map Bytes → Map Bytes
logins [] out = out
logins (s ∷ ss) out =
    let server = or_empty (lookup (text "server") s.attributes) in
    logins ss (
      if not (equal server [])
      then insert server (or_empty (lookup (text "username") s.attributes)) out
      else out)

-- The secret that store sends: the one that was found, or a new one, with the login's user name
-- and value.
unfoldable pub renewed : StoreRequest → Bytes → Secret → Secret
renewed r value s = record s {
  attributes = insert (text "username") r.username s.attributes;
  value = value;
}

abbrev pub new_login : Bytes → Secret
new_login server = record {
  name = secret_name server;
  kind = kind;
  attributes = (text "server", server) ∷ [];
  value = [];
  created = 0;
  updated = 0;
}
