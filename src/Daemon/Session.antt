-- ===== src/Daemon/Session.antt =====
-- internal/daemon/session.go: the lock state of the daemon. The mutex makes each method one
-- step. Times are nanoseconds; the zero time is `none`. Logging is left out.
pub mod Invariant
pub mod Installing
pub mod Timers
pub mod Progress
use keycell.Prelude.{
  ℕ, ◌+◌, ◌%◌, Bool, true, false, Option, none, some, Result, ok, err, if◌then◌else◌, length, ◌==◌,
  not, ◌||◌, ◌^◌,
}
use keycell.Prelude.Bytes.{Bytes, clear}
use keycell.Prelude.Int.{ℤ, is_pos, pos_part}
use keycell.Identity
use keycell.Secmem
use keycell.Vault.File.{Codec}
use keycell.Secmem.{Memory, Calls, Buffer}

-- What afterFunc gives: the generation that the callback captured, and when it is to run.
pub record Timer : Type 0 where
  pub gen : ℕ
  pub due : ℕ

pub record Session (I : Type 0) : Type 0 where
  pub default_for : ℤ
  pub memory : Memory
  pub buf : Option Buffer
  pub id : Option I
  pub timer : Option Timer
  pub locks_at : Option ℕ
  pub gen : ℕ

pub data Failure : Type 0 where
  bad_identity : Identity.Error → Failure
  no_memory : Secmem.Failure → Failure

-- NewSession
abbrev pub new_session : {I : Type 0} → ℤ → Session I
new_session d = record {
  default_for = d;
  memory = Secmem.no_memory;
  buf = none;
  id = none;
  timer = none;
  locks_at = none;
  gen = 0;
}

release : Option Buffer → Memory → Memory
release none m = m
release (some b) m = Secmem.destroy b m

-- The auto-lock duration: the one given, or the configured one.
unfoldable pub duration : ℤ → Option ℤ → ℤ
duration default_for none = default_for
duration default_for (some d) = d

module _ {I : Type 0} where
  -- drop
  unfoldable pub drop_identity : Session I → Session I
  unfolding release
  drop_identity s = record s {
    memory = release s.buf s.memory;
    buf = none;
    id = none;
    timer = none;
    locks_at = none;
  }

  -- Whether an identity is held, `s.buf != nil`.
  abbrev pub is_held : Session I → Bool
  is_held s = elim s.buf [ none ↦ false | some _ ↦ true ]

  -- The last lines of Unlock, under the lock, once the old identity is dropped.
  arm : ℕ → ℤ → Session I → Session I
  arm now d s =
      if is_pos d
      then record s {
        locks_at = some (now + pos_part d);
        timer = some (record { gen = s.gen; due = now + pos_part d });
      }
      else s

  abbrev hold : Buffer → I → Session I → Session I
  hold b i s = record s { buf = some b; id = some i; gen = (s.gen + 1) % 2 ^ 64 }

  -- The buffer gets the key, and the session is swapped over to it.
  swap : ℕ → Session I → Memory → Buffer → I → Bytes → ℤ → Session I
  unfolding arm drop_identity
  swap now s m b i encoded d =
      let m' = record m { mapped = Secmem.fill b.handle encoded m.mapped } in
      arm now d (hold b i (drop_identity (record s { memory = m' })))

  -- Unlock: the session, the error, and the caller's buffer afterwards.
  unfoldable pub unlock :
      Codec I
      → Calls
      → ℕ
      → Session I
      → Bytes
      → Option ℤ
      → Session I × Result Failure (Unit {0}) × Bytes
  unfolding swap duration
  unlock c k now s encoded lock_after = elim (Identity.parse c encoded) [
    | err e ↦ (s, err (bad_identity e), clear encoded)
    | ok i ↦
        let (m, r) = Secmem.new k (length encoded) s.memory in
        elim r [
          | err e ↦ (record s { memory = m }, err (no_memory e), clear encoded)
          | ok b ↦
              (swap now s m b i encoded (duration s.default_for lock_after), ok tt, clear encoded)
        ]
  ]

  -- Lock
  unfoldable pub lock : Session I → Session I
  unfolding drop_identity
  lock s = if not (is_held s) then s else drop_identity s

  -- autoLock
  unfoldable pub auto_lock : ℕ → Session I → Session I
  unfolding drop_identity
  auto_lock g s = if not (is_held s) || not (s.gen == g) then s else drop_identity s

  -- Status
  unfoldable pub status : Session I → Bool × Option ℕ
  status s = (not (is_held s), s.locks_at)

  -- With: the function runs on the identity, or the error is ErrLocked.
  unfoldable pub with_identity : {E A : Type 0} → E → Session I → (I → Result E A) → Result E A
  with_identity locked s f = elim s.id [ none ↦ err locked | some i ↦ f i ]
