-- ===== src/GitCredential/Commands.antt =====
-- The subcommands get, store and erase, over the client's operations. A write to stdout is taken
-- to succeed.
pub mod Effects
use keycell.Client.{Api, Secret, Failure, Sentinel, sentinel, not_found}
use keycell.Client.Exit.{
  Exit, Note, success, fail, silent, exit_error, bad_line, bad_input, ambiguous_match,
  value_has_newline,
}
use keycell.Daemon.Store.{Filter}
use keycell.GitCredential.{
  GitRequest, ParseError, no_host, no_equals, line_too_long, parse_git_request, git_kind, git_name,
  git_attrs, MatchError, no_match, ambiguous, match_git_credential,
}
use keycell.Prelude.{
  ℕ, Bool, true, false, List, [], ◌∷◌, ◌++◌, Option, none, some, Result, ok, err, if◌then◌else◌,
}
use keycell.Prelude.Bytes.{Bytes, text, equal, contains_byte}
use keycell.Prelude.Maps.{lookup}

-- gitRequest: a request without host ends the command with nothing written.
unfoldable pub git_request : Bytes → Result Exit GitRequest
git_request stdin = elim (parse_git_request stdin) [
  | ok r ↦ ok r
  | err no_host ↦ err success
  | err (no_equals n l) ↦ err (fail (bad_line n l))
  | err line_too_long ↦ err (fail bad_input)
]

-- The filter of gitMatch.
abbrev pub host_filter : GitRequest → Filter
host_filter r = record { kind = git_kind; prefix = []; attributes = (text "host", r.host) ∷ [] }

-- The error of gitMatch: the daemon's, or that of the choice.
pub data Unmatched : Type 0 where
  daemon : Failure → Unmatched
  choice : MatchError → Unmatched

-- What git reads: username, when the secret sets it, and password.
unfoldable pub credential : Option Bytes → Bytes → Bytes
credential none v = text "password=" ++ (v ++ b'\n' ∷ [])
credential (some u) v = text "username=" ++ (u ++ (b'\n' ∷ (text "password=" ++ (v ++ b'\n' ∷ []))))

module _ {S : Type 0} (api : Api S) where
  -- gitMatch
  unfoldable pub git_match : S → GitRequest → Result Unmatched Secret
  git_match s r = elim (api.list s (host_filter r)) [
    | err e ↦ err (daemon e)
    | ok ss ↦ elim (match_git_credential ss r) [ err e ↦ err (choice e) | ok x ↦ ok x ]
  ]

  print : Secret → Secret → Exit
  unfolding credential
  print s full =
      if contains_byte b'\n' full.value then fail (value_has_newline s.name) else record {
        code = 0;
        out = credential (lookup (text "username") s.attributes) full.value;
        note = silent;
      }

  answer : S → Result Unmatched Secret → Exit
  unfolding print
  answer st (err (choice no_match)) = success
  answer st (err (choice (ambiguous names))) = fail (ambiguous_match names)
  answer st (err (daemon e)) = exit_error e
  answer st (ok s) = elim (api.get st s.name) [ err e ↦ exit_error e | ok full ↦ print s full ]

  -- gitCredentialGet
  unfoldable pub git_get : S → Bytes → Exit
  unfolding answer git_match
  git_get st stdin = elim (git_request stdin) [
    | err x ↦ x
    | ok r ↦ elim (api.connect st) [ err e ↦ exit_error e | ok _ ↦ answer st (git_match st r) ]
  ]

  -- gitAmbiguous, on the error of a choice: reported with exit 0.
  abbrev reported : List Bytes → Exit
  reported names = record { code = 0; out = []; note = ambiguous_match names }

  stored : S × Result Failure (Unit {0}) → S × Exit
  stored (st, ok _) = (st, success)
  stored (st, err e) = (st, exit_error e)

  save : S → GitRequest → Result Unmatched Secret → S × Exit
  unfolding stored
  save st r (err (choice no_match)) = stored (
      api.store st (record {
        name = git_name r;
        kind = git_kind;
        attributes = git_attrs r;
        value = r.password;
        created = 0;
        updated = 0;
      }))
  save st r (err (choice (ambiguous names))) = (st, reported names)
  save st r (err (daemon e)) = (st, exit_error e)
  save st r (ok s) = stored (api.store st (record s { value = r.password }))

  -- gitCredentialStore
  unfoldable pub git_store : S → Bytes → S × Exit
  unfolding save git_match
  git_store st stdin = elim (git_request stdin) [
    | err x ↦ (st, x)
    | ok r ↦ if equal r.password [] then (st, success) else elim (api.connect st) [
      | err e ↦ (st, exit_error e)
      | ok _ ↦ save st r (git_match st r)
    ]
  ]

  deleted : S × Result Failure (Unit {0}) → S × Exit
  deleted (st, ok _) = (st, success)
  deleted (st, err e) = elim (sentinel e) [
    | some Sentinel.not_found ↦ (st, success)
    | some _ ↦ (st, exit_error e)
    | none ↦ (st, exit_error e)
  ]

  drop_match : S → Result Unmatched Secret → S × Exit
  unfolding deleted
  drop_match st (err (choice no_match)) = (st, success)
  drop_match st (err (choice (ambiguous names))) = (st, reported names)
  drop_match st (err (daemon e)) = (st, exit_error e)
  drop_match st (ok s) = deleted (api.delete st s.name)

  -- gitCredentialErase
  unfoldable pub git_erase : S → Bytes → S × Exit
  unfolding drop_match git_match
  git_erase st stdin = elim (git_request stdin) [
    | err x ↦ (st, x)
    | ok r ↦ elim (api.connect st) [
      | err e ↦ (st, exit_error e)
      | ok _ ↦ drop_match st (git_match st r)
    ]
  ]
