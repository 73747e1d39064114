-- ===== src/Tests/Scene.antt =====
-- The scene of the tests: a vault with one secret, the system calls that all succeed, and a
-- session that was unlocked at time 100.
use keycell.Atomicfile.{Files, Faults}
use keycell.Daemon.Server.{Env}
use keycell.Daemon.Session.{Session, new_session, unlock}
use keycell.Daemon.Store.{Filter}
use keycell.Prelude.{ℕ, [], ◌∷◌, none, some, true}
use keycell.Prelude.Bytes.{Bytes, text}
use keycell.Prelude.Int.{pos}
use keycell.Secmem.{Calls}
use keycell.Tests.ToyCodec.{toy, to_json}
use keycell.Vault.File.{Disk}
use keycell.Vault.Model.{Secret, Vault, current}

abbrev pub token : Secret
token = record {
  kind = text "generic";
  value = text "hunter2";
  attributes = (text "host", text "a.b") ∷ [];
  created = 5;
  updated = 6;
}

abbrev pub one_secret : Vault
one_secret = record { version = current; secrets = (text "git/a", token) ∷ [] }

abbrev pub all_well : Faults
all_well = record {
  creates = true;
  chmods = true;
  writes = true;
  partial = [];
  syncs = true;
  closes = true;
  backs_up = true;
  renames = true;
  syncs_dir = true;
  removes_temp = true;
}

-- The file that `toy` seals for identity 7.
unfoldable pub sealed : Bytes
unfolding to_json
sealed = 7 ∷ to_json one_secret

abbrev pub files : Files
files = record { file = some sealed; backup = none; temp = none }

abbrev pub disk : Disk
disk = record { files = files; faults = all_well; opens = true; random = 3 }

abbrev pub calls : Calls
calls = record { page = 16; mmaps = true; mlocks = true; madvises = true }

abbrev pub fresh : Session ℕ
fresh = new_session (pos 1000)

abbrev pub opened : Session ℕ
opened = (unlock toy calls 100 fresh (text "KEY") none).0

abbrev pub env : Env
env = record { calls = calls; faults = all_well; opens = true; random = 3; now = 200; sends = true }

abbrev pub everything : Filter
everything = record { kind = []; prefix = []; attributes = [] }
