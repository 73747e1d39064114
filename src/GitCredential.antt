-- ===== src/GitCredential.antt =====
-- cmd/keycell/gitcredential.go: the git credential helper. Its requests, the choice of a secret
-- and the three subcommands; the wiping of passwords is left out.
pub mod Matching
pub mod Scores
pub mod Commands
use keycell.Client.{Secret}
use keycell.Prelude.{
  ℕ, ◌+◌, ◌^◌, Bool, true, false, not, ◌&&◌, ◌||◌, List, [], ◌∷◌, ◌++◌, map, Option, none, some,
  Result, ok, err, ◌>>=◌, if◌then◌else◌, ltb, ◌==◌,
}
use keycell.Prelude.Bytes.{Bytes, text, equal, cut, or_empty}
use keycell.Prelude.Maps.{Map, lookup, insert}
use keycell.Prelude.Text.{sort_strings, raw_lines, scan}

abbrev pub git_kind : Bytes
git_kind = text "git-credential"

-- gitRequest; a field that is not sent is empty.
pub record GitRequest : Type 0 where
  pub protocol : Bytes
  pub host : Bytes
  pub username : Bytes
  pub path : Bytes
  pub password : Bytes

abbrev pub no_request : GitRequest
no_request = record { protocol = []; host = []; username = []; path = []; password = [] }

pub data ParseError : Type 0 where
  no_host : ParseError
  no_equals : ℕ → Bytes → ParseError
  line_too_long : ParseError

-- The switch over the key of a line.
unfoldable pub set_field : Bytes → Bytes → GitRequest → GitRequest
set_field key val r =
    if equal key (text "protocol")
    then record r { protocol = val }
    else if equal key (text "host")
    then record r { host = val }
    else if equal key (text "username")
    then record r { username = val }
    else if equal key (text "path")
    then record r { path = val }
    else if equal key (text "password")
    then record r { password = val }
    else r

-- The loop over the lines, from line n; `too_long` is the error of the scanner behind them.
unfoldable pub parse_lines : ℕ → Bool → List Bytes → GitRequest → Result ParseError GitRequest
unfolding set_field
parse_lines n too_long [] r = if too_long then err line_too_long else ok r
parse_lines n too_long (l ∷ ls) r = if equal l [] then ok r else elim (cut b'=' l) [
  | none ↦ err (no_equals n l)
  | some (key, val) ↦ parse_lines (n + 1) too_long ls (set_field key val r)
]

-- parseGitRequest
unfoldable pub parse_git_request : Bytes → Result ParseError GitRequest
unfolding parse_lines raw_lines scan
parse_git_request s = do
  let (ls, too_long) = scan (2 ^ 20) (raw_lines s)
  r ← parse_lines 1 too_long ls no_request
  if equal r.host [] then err no_host else ok r

-- gitName
unfoldable pub git_name : GitRequest → Bytes
git_name r =
    if not (equal r.username [])
    then text "git/" ++ (r.host ++ (b'/' ∷ r.username))
    else text "git/" ++ r.host

abbrev pub set_attr : Bytes → Bytes → Map Bytes → Map Bytes
set_attr k v m = if not (equal v []) then insert k v m else m

-- gitAttrs
unfoldable pub git_attrs : GitRequest → Map Bytes
git_attrs r = set_attr (text "path") r.path (
    set_attr (text "username") r.username
      (set_attr (text "protocol") r.protocol ((text "host", r.host) ∷ [])))

-- The fields that gitScore compares.
abbrev pub compared : GitRequest → List (Bytes × Bytes)
compared r =
    (text "protocol", r.protocol) ∷ (text "username", r.username) ∷ (text "path", r.path) ∷ []

-- The loop of gitScore.
unfoldable pub score_fields : Map Bytes → List (Bytes × Bytes) → ℕ → Option ℕ
score_fields attrs [] n = some n
score_fields attrs ((attr, want) ∷ fs) n = elim (lookup attr attrs) [
  | none ↦ score_fields attrs fs n
  | some v ↦
      let counted = score_fields attrs fs (n + 1) in
      if not (equal want []) && not (equal v want) then none else counted
]

-- gitScore
unfoldable pub git_score : Secret → GitRequest → Option ℕ
unfolding score_fields
git_score s r =
    if not (equal s.kind git_kind)
      || not (equal (or_empty (lookup (text "host") s.attributes)) r.host)
    then none
    else score_fields s.attributes (compared r) 0

pub data MatchError : Type 0 where
  no_match : MatchError
  ambiguous : List Bytes → MatchError

-- The best candidates so far, with their score; `none` is the -1 at the start.
pub record Best : Type 0 where
  pub score : Option ℕ
  pub secrets : List Secret

-- The body of the loop of matchGitCredential.
unfoldable pub consider : GitRequest → Best → Secret → Best
unfolding git_score
consider r b s = elim (git_score s r) [
  | none ↦ b
  | some n ↦ elim b.score [
    | none ↦ record { score = some n; secrets = s ∷ [] }
    | some m ↦
        if ltb m n
        then record { score = some n; secrets = s ∷ [] }
        else if n == m
        then record { score = some m; secrets = b.secrets ++ s ∷ [] }
        else b
  ]
]

unfoldable pub consider_all : GitRequest → Best → List Secret → Best
unfolding consider
consider_all r b [] = b
consider_all r b (s ∷ ss) = consider_all r (consider r b s) ss

abbrev pub name_of : Secret → Bytes
name_of s = s.name

-- What follows the loop.
unfoldable pub choose : List Secret → Result MatchError Secret
choose [] = err no_match
choose (s ∷ []) = ok s
choose (s ∷ t ∷ ss) = err (ambiguous (sort_strings (map name_of (s ∷ t ∷ ss))))

-- matchGitCredential
unfoldable pub match_git_credential : List Secret → GitRequest → Result MatchError Secret
unfolding consider_all choose
match_git_credential cands r =
    choose (consider_all r (record { score = none; secrets = [] }) cands).secrets
