-- ===== src/Vault/Model.antt =====
-- The records of internal/vault/vault.go.
use keycell.Prelude.{ℕ, [], ◌∷◌}
use keycell.Prelude.Bytes.{Bytes, clear}
use keycell.Prelude.Int.{ℤ, pos}
use keycell.Prelude.Maps.{Map}

-- One record in the vault; times are nanoseconds.
pub record Secret : Type 0 where
  pub kind : Bytes
  pub value : Bytes
  pub attributes : Map Bytes
  pub created : ℕ
  pub updated : ℕ

pub record Vault : Type 0 where
  pub version : ℤ
  pub secrets : Map Secret

-- The schema version that this package writes, `Version`.
abbrev pub current : ℤ
current = pos 1

-- New
abbrev pub new : Vault
new = record { version = current; secrets = [] }

unfoldable pub wipe_values : Map Secret → Map Secret
wipe_values [] = []
wipe_values ((name, s) ∷ m) = (name, record s { value = clear s.value }) ∷ wipe_values m

-- Wipe: every value is zeroed in place.
unfoldable pub wipe : Vault → Vault
unfolding wipe_values
wipe v = record v { secrets = wipe_values v.secrets }
