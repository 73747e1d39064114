-- ===== src/Tests/Imports.antt =====
-- The theorem about the import, at a document with one secret.
use keycell.Client
use keycell.Client.{Api}
use keycell.Import.{everything, import_secrets}
use keycell.Import.Overwrites.{Stores, import_secrets-Stores}
use keycell.Prelude.{◌≡◌, ◌⊎◌, List, [], ◌∷◌, ok, true}
use keycell.Tests.Git.{kept, shared}
use keycell.Tests.Scene.{one_secret}

import_secrets-Stores_example :
    ((import_secrets kept true one_secret (shared ∷ [])).0 ≡ shared ∷ [])
    ⊎ ((skip : List Client.Secret) × (kept.list (shared ∷ []) everything ≡ ok skip)
        × Stores kept skip one_secret.secrets
            (shared ∷ [])
            (import_secrets kept true one_secret (shared ∷ [])).0)
import_secrets-Stores_example = import_secrets-Stores kept one_secret (shared ∷ [])
