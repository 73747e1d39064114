-- ===== src/Daemon/Store/Replay.antt =====
-- The vault as its callers see it: a lock and a map, without files, encryption or sessions.
use keycell.Atomicfile.{Files, Faults}
use keycell.Daemon.Session.{Session, lock}
use keycell.Daemon.Store.{
  Secret, Error, locked, not_found, invalid_argument, get, store, delete_secret,
}
use keycell.Daemon.Store.Effects.{found}
use keycell.Prelude.{
  ℕ, Bool, true, false, List, [], ◌∷◌, Option, none, some, Result, ok, err, if◌then◌else◌,
}
use keycell.Prelude.Bytes.{Bytes, equal}
use keycell.Prelude.Maps.{Map}
use keycell.Vault.File.{Codec, Disk}
use keycell.Vault.Model
use keycell.Vault.Model.{Vault}
use keycell.Vault.Validate.{validate_name, validate_secret}

-- The calls: Store with the time of the call, and each write with the random bytes of its encryption.
pub data Op : Type 0 where
  get_op : Bytes → Op
  store_op : ℕ → ℕ → Bytes → Bytes → Map Bytes → Bytes → Op
  delete_op : ℕ → Bytes → Op
  lock_op : Op

pub data Answer : Type 0 where
  secret : Result Error Secret → Answer
  done : Result Error (Unit {0}) → Answer

pub record View : Type 0 where
  pub is_open : Bool
  pub secrets : Bytes → Option Model.Secret

unfoldable pub update :
    Bytes → Option Model.Secret → (Bytes → Option Model.Secret) → Bytes → Option Model.Secret
update n x f j = if equal n j then x else f j

unfoldable pub created_of : ℕ → Option Model.Secret → ℕ
created_of now none = now
created_of now (some old) = old.created

-- The map after Store of a valid secret, which keeps the creation time of the one it replaces.
unfoldable pub stored_secrets : ℕ → Bytes → Model.Secret → View → Bytes → Option Model.Secret
unfolding update created_of
stored_secrets now n x a =
    update n (some (record x { created = created_of now (a.secrets n) })) a.secrets

unfoldable pub stored : ℕ → Bytes → Model.Secret → View → View × Answer
unfolding stored_secrets
stored now n x a = elim (validate_secret n x) [
  | err e ↦ (a, done (err (invalid_argument e)))
  | ok _ ↦ (record a { secrets = stored_secrets now n x a }, done (ok tt))
]

unfoldable pub deleted : Bytes → View → View × Answer
unfolding update
deleted n a = elim (validate_name n) [
  | err e ↦ (a, done (err (invalid_argument e)))
  | ok _ ↦ elim (a.secrets n) [
    | none ↦ (a, done (err not_found))
    | some _ ↦ (record a { secrets = update n none a.secrets }, done (ok tt))
  ]
]

unfoldable pub looked_up : Bytes → View → Answer
looked_up n a = elim (validate_name n) [
  | err e ↦ secret (err (invalid_argument e))
  | ok _ ↦ secret (found n (a.secrets n))
]

-- What a call does to the map, and its answer.
unfoldable pub view_step : View → Op → View × Answer
unfolding stored deleted looked_up
view_step a (get_op n) = (a, if a.is_open then looked_up n a else secret (err locked))
view_step a (store_op now r n k attrs x) =
    if a.is_open
    then stored now n
        (record { kind = k; value = x; attributes = attrs; created = now; updated = now }) a
    else (a, done (err locked))
view_step a (delete_op r n) = if a.is_open then deleted n a else (a, done (err locked))
view_step a lock_op = (record a { is_open = false }, done (ok tt))

unfoldable pub view_run : View → List Op → List Answer
unfolding view_step
view_run a [] = []
view_run a (op ∷ ops) = (view_step a op).1 ∷ view_run (view_step a op).0 ops

abbrev pub well : Faults
well = record {
  creates = true;
  chmods = true;
  writes = true;
  partial = [];
  syncs = true;
  closes = true;
  backs_up = true;
  renames = true;
  syncs_dir = true;
  removes_temp = true;
}

-- A disk where every system call succeeds.
abbrev pub good : Files → ℕ → Disk
good fs r = record { files = fs; faults = well; opens = true; random = r }

module _ {I : Type 0} (c : Codec I) where
  -- The daemon's step for the same call: the session and the files afterwards, and the answer.
  unfoldable pub daemon_step : Session I → Files → Op → (Session I × Files) × Answer
  unfolding get store delete_secret lock
  daemon_step s fs (get_op n) = ((s, fs), secret (get c s (good fs 0) n))
  daemon_step s fs (store_op now r n k attrs x) =
      let (fs', e) = store c s (good fs r) now n k attrs x in ((s, fs'), done e)
  daemon_step s fs (delete_op r n) =
      let (fs', e) = delete_secret c s (good fs r) n in ((s, fs'), done e)
  daemon_step s fs lock_op = ((lock s, fs), done (ok tt))

  unfoldable pub daemon_run : Session I → Files → List Op → List Answer
  unfolding daemon_step
  daemon_run s fs [] = []
  daemon_run s fs (op ∷ ops) =
      let next = daemon_step s fs op in next.1 ∷ daemon_run next.0.0 next.0.1 ops
