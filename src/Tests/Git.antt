-- ===== src/Tests/Git.antt =====
-- The theorems about the git helper, with a daemon that is a list of secrets.
use keycell.Client.{Api, Secret, broken}
use keycell.GitCredential.{GitRequest, git_kind, no_request}
use keycell.GitCredential.Commands.{git_store, git_erase}
use keycell.GitCredential.Commands.Effects.{Erased, Saved, git_erase-Erased, git_store-Saved}
use keycell.GitCredential.Scores.{created}
use keycell.Prelude.{List, [], ◌∷◌, ◌++◌, ◌≡◌, ◌⊎◌, Option, none, some, ok, err, if◌then◌else◌}
use keycell.Prelude.Bytes.{Bytes, text, equal}

abbrev request : GitRequest
request = record no_request { protocol = text "https"; host = text "a.b"; username = text "me" }

abbrev pub shared : Secret
shared = record {
  name = text "git/a.b";
  kind = git_kind;
  attributes = (text "host", text "a.b") ∷ [];
  value = text "x";
  created = 0;
  updated = 0;
}

abbrev mine : Secret
mine = created request (text "y")

-- The first secret with the name.
abbrev pub named : Bytes → List Secret → Option Secret
named n [] = none
named n (s ∷ ss) = if equal s.name n then some s else named n ss

abbrev pub kept : Api (List Secret)
kept = record {
  connect = λ st. ok tt;
  list = λ st f. ok st;
  get = λ st n. elim (named n st) [ none ↦ err broken | some s ↦ ok s ];
  store = λ st s. (s ∷ st, ok tt);
  delete = λ st n. ([], ok tt);
}

abbrev sent : Bytes
sent = text "host=a.b" ++ (b'\n' ∷ (text "password=z" ++ b'\n' ∷ []))

git_erase-Erased_example :
    ((git_erase kept (shared ∷ []) sent).0 ≡ shared ∷ [])
    ⊎ Erased kept (shared ∷ []) sent (git_erase kept (shared ∷ []) sent).0
git_erase-Erased_example = git_erase-Erased kept (shared ∷ []) sent

git_store-Saved_example :
    ((git_store kept (shared ∷ []) sent).0 ≡ shared ∷ [])
    ⊎ Saved kept (shared ∷ []) sent (git_store kept (shared ∷ []) sent).0
git_store-Saved_example = git_store-Saved kept (shared ∷ []) sent
