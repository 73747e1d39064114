-- ===== src/Tests/Commands.antt =====
-- The theorems about exec, the docker helper and the configuration, with the daemon of the git
-- tests.
use keycell.Config.{Config, Layer, System, missing, no_layer}
use keycell.DockerHelper.Commands
use keycell.DockerHelper.{Json}
use keycell.DockerHelper.Commands.Logins.{Kept, store-Kept}
use keycell.DockerHelper.Quote.{quote, unquote}
use keycell.DockerHelper.Quote.RoundTrip.{unquote-quote}
use keycell.Exec.{EnvEntry, merge_env, resolve_env, is_mapped, key}
use keycell.Exec.Environment.{value_of, merge_env-value, Fetched, resolve_env-Fetched}
use keycell.Prelude.{
  ℕ, List, [], ◌∷◌, ◌++◌, ◌≡◌, ◌⊎◌, refl, Option, none, some, ok, err, if◌then◌else◌, true,
}
use keycell.Prelude.Bytes.{Bytes, text, equal}
use keycell.Prelude.Int.{pos}
use keycell.Prelude.Utf8.{valid_string}
use keycell.Tests.Git.{kept, shared}

abbrev token_entry : EnvEntry
token_entry = record { var = text "TOKEN"; name = text "git/a.b" }

token_mapped : is_mapped (key (text "TOKEN=x")) (token_entry ∷ []) ≡ true
unfolding is_mapped key equal keycell.Prelude.Bytes.cut
token_mapped = refl

merge_env-value_example :
    value_of
      (text "TOKEN")
      (merge_env (text "TOKEN=old" ∷ text "HOME=/h" ∷ []) (token_entry ∷ []) (text "TOKEN=x" ∷ []))
    ≡ (if is_mapped (text "TOKEN") (token_entry ∷ [])
        then value_of (text "TOKEN") (text "TOKEN=x" ∷ [])
        else value_of (text "TOKEN") (text "TOKEN=old" ∷ text "HOME=/h" ∷ []))
merge_env-value_example =
    merge_env-value (text "TOKEN") (text "TOKEN=old" ∷ text "HOME=/h" ∷ []) (token_entry ∷ [])
      (text "TOKEN=x" ∷ []) (token_mapped, tt)

resolved : resolve_env kept (shared ∷ []) (token_entry ∷ []) ≡ ok (text "TOKEN=x" ∷ [])
unfolding resolve_env equal
resolved = refl

resolve_env-Fetched_example : Fetched kept (shared ∷ []) (token_entry ∷ []) (text "TOKEN=x" ∷ [])
resolve_env-Fetched_example =
    resolve_env-Fetched kept (shared ∷ []) (token_entry ∷ []) (text "TOKEN=x" ∷ []) resolved

-- A decoder that reads every login as the same one.
abbrev json : Json
json = record {
  request = λ s.
      some (record {
        server_url = text "https://a.b/v1";
        username = text "me";
        secret = text "\"pw\"";
      });
  string = λ s. s;
  object = λ m. [];
}

store-Kept_example :
    ((Commands.store json kept [] (text "{}")).0 ≡ [])
    ⊎ Kept json kept [] (text "{}") (Commands.store json kept [] (text "{}")).0
store-Kept_example = store-Kept json kept [] (text "{}")

quoted_valid : valid_string (text "a\"b\n") ≡ true
unfolding valid_string keycell.Prelude.Utf8.decode_rune
quoted_valid = refl

unquote-quote_example : unquote (quote (text "a\"b\n")) ≡ ok (text "a\"b\n")
unquote-quote_example = unquote-quote (text "a\"b\n") quoted_valid

-- No file, no variable but HOME, and a flag for the socket.
abbrev system : System
system = record {
  file = λ p. missing;
  env = λ n. if equal n (text "HOME") then text "/home" else [];
  parse_duration = λ s. none;
  join = λ ps. text "/home/keycell";
  clean = λ p. p;
  to_lower = λ s. s;
}

abbrev flags : Layer
flags = record {
  data_dir = none;
  socket = some (text "/s");
  auto_lock = some (text "0");
  log_level = none;
}

abbrev loaded : Config
loaded = record {
  data_dir = text "/home/keycell";
  socket = text "/s";
  auto_lock = pos 0;
  log_level = text "info";
}
