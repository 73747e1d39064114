-- ===== src/Tests/Sessions.antt =====
-- The theorems about the session and the server at the scene.
use keycell.Daemon.Server.{
  Server, Env, call_unlock, handle, run, verify_identity, line, Failure, seconds,
}
use keycell.Daemon.Server.Replies.{handle-IsConsistent}
use keycell.Daemon.Server.Unlocking.{
  Opened, Refused, call_unlock-ok, call_unlock-err, call_unlock_for_ever,
}
use keycell.Daemon.Session.{Session, unlock, lock, auto_lock, is_held, new_session}
use keycell.Daemon.Session.Invariant.{IsConsistent, new_session-IsLocked}
use keycell.Daemon.Session.Installing.{unlock-IsConsistent}
use keycell.Daemon.Session.Timers.{
  World, Reach, here, next, unlock_ok, wait, started, armed, Reach-IsConsistent,
  auto_lock_not_early, Mem,
}
use keycell.Prelude.{
  ℕ, List, [], ◌∷◌, ◌≡◌, ◌≤◌, refl, arith, none, some, true, false, ok, err, inl, inr,
}
use keycell.Prelude.Bytes.{text}
use keycell.Prelude.Int.{ℤ, pos}
use keycell.Protocol
use keycell.Protocol.{Wire, Request, Method}
use keycell.Daemon.Store
use keycell.Daemon.Store.{Secret}
use keycell.Daemon.Store.{read}
use keycell.Daemon.Store.Replay.{
  Op, get_op, store_op, delete_op, lock_op, View, view_run, daemon_run, good,
}
use keycell.Daemon.Store.Refines.{run_refines}
use keycell.Daemon.Store.Shows.{IsTotal, Shows}
use keycell.Prelude.Maps.{lookup}
use keycell.Tests.Scene.{one_secret}
use keycell.Tests.ToyCodec.{toy-IsFaithful}
use keycell.Prelude.{◌-◌}
use keycell.Secmem.{Memory}
use keycell.Vault.File
use keycell.Tests.Scene.{files, opened, fresh, calls, env, sealed}
use keycell.Tests.ToyCodec.{toy}

fresh-IsConsistent : IsConsistent fresh
fresh-IsConsistent = inl (new_session-IsLocked (pos 1000))

opened-IsConsistent : IsConsistent opened
opened-IsConsistent = unlock-IsConsistent toy calls 100 fresh (text "KEY") none fresh-IsConsistent

opened_timer : opened.timer ≡ some (record { gen = 1; due = 1100 })
unfolding unlock toy keycell.Identity.parse keycell.Prelude.Utf8.trim_space
    keycell.Prelude.Utf8.decode_rune keycell.Secmem.new
opened_timer = refl

unlocked_fine : (unlock toy calls 100 fresh (text "KEY") none).1 ≡ ok tt
unfolding unlock toy keycell.Identity.parse keycell.Prelude.Utf8.trim_space
    keycell.Prelude.Utf8.decode_rune keycell.Secmem.new
unlocked_fine = refl

-- Unlocked at time 100, and 1000 nanoseconds later.
abbrev then_opened : World ℕ
then_opened = armed toy (started toy (pos 1000) 100) opened

abbrev later : World ℕ
later = record then_opened { now = 1100 }

reached : Reach toy (started toy (pos 1000) 100) later
reached = next (next here (unlock_ok calls (text "KEY") none unlocked_fine refl)) (wait 1000 refl)

Reach-IsConsistent_example : IsConsistent later.session
Reach-IsConsistent_example = Reach-IsConsistent toy (pos 1000) 100 later reached

timer_there : later.timers ≡ record { gen = 1; due = 1100 } ∷ []
unfolding unlock toy keycell.Identity.parse keycell.Prelude.Utf8.trim_space
    keycell.Prelude.Utf8.decode_rune keycell.Secmem.new
timer_there = refl

dropped : is_held (auto_lock 1 later.session) ≡ false
unfolding unlock toy keycell.Identity.parse keycell.Prelude.Utf8.trim_space
    keycell.Prelude.Utf8.decode_rune keycell.Secmem.new auto_lock call_unlock sealed
    keycell.Vault.File.read keycell.Daemon.Store.list keycell.Daemon.Session.with_identity lock
    keycell.Daemon.Server.seconds keycell.Prelude.Int.mul_int64
    keycell.Vault.Validate.validate_attributes
dropped = refl

held : is_held later.session ≡ true
unfolding unlock toy keycell.Identity.parse keycell.Prelude.Utf8.trim_space
    keycell.Prelude.Utf8.decode_rune keycell.Secmem.new auto_lock call_unlock sealed
    keycell.Vault.File.read keycell.Daemon.Store.list keycell.Daemon.Session.with_identity lock
    keycell.Daemon.Server.seconds keycell.Prelude.Int.mul_int64
    keycell.Vault.Validate.validate_attributes
held = refl

armed_one : Mem (record { gen = 1; due = 1100 }) later.timers
unfolding unlock toy keycell.Identity.parse keycell.Prelude.Utf8.trim_space
    keycell.Prelude.Utf8.decode_rune keycell.Secmem.new auto_lock call_unlock sealed
    keycell.Vault.File.read keycell.Daemon.Store.list keycell.Daemon.Session.with_identity lock
    keycell.Daemon.Server.seconds keycell.Prelude.Int.mul_int64
    keycell.Vault.Validate.validate_attributes
armed_one = inl refl

auto_lock_not_early_example : (at : ℕ) × (later.session.locks_at ≡ some at) × (at ≤ later.now)
auto_lock_not_early_example =
    auto_lock_not_early toy (pos 1000) 100 later (record { gen = 1; due = 1100 }) reached
      (omega arith) armed_one (omega arith) held dropped

-- Decoders that read nothing, and a request whose method is the whole line.
abbrev wire : Wire
wire = record {
  request = λ b. some (record { id = text "1"; method = b; params = [] });
  name = λ b. none;
  list_params = λ b. none;
  store_params = λ b. none;
  unlock_params = λ b. none;
  answer = λ a. some [];
}

abbrev server : Server ℕ
server = record { session = fresh; files = files }

abbrev open_server : Server ℕ
open_server = record { session = opened; files = files }

unlocks :
    (call_unlock toy wire env server
      (record { identity = text "KEY"; for_seconds = some (pos 60) })).1
    ≡ ok Protocol.empty
unfolding unlock toy keycell.Identity.parse keycell.Prelude.Utf8.trim_space
    keycell.Prelude.Utf8.decode_rune keycell.Secmem.new auto_lock call_unlock sealed
    keycell.Vault.File.read keycell.Daemon.Store.list keycell.Daemon.Session.with_identity lock
    keycell.Daemon.Server.seconds keycell.Prelude.Int.mul_int64
    keycell.Vault.Validate.validate_attributes
unlocks = refl

call_unlock-ok_example :
    Opened toy wire env server
      (record { identity = text "KEY"; for_seconds = some (pos 60) })
      (call_unlock toy wire env server
        (record { identity = text "KEY"; for_seconds = some (pos 60) })).0
call_unlock-ok_example =
    call_unlock-ok toy wire env server
      (record { identity = text "KEY"; for_seconds = some (pos 60) }) Protocol.empty
      fresh-IsConsistent unlocks

unlocks_for_ever :
    (call_unlock toy wire env server
      (record { identity = text "KEY"; for_seconds = some (pos 9_223_372_037) })).1
    ≡ ok Protocol.empty
unfolding unlock toy keycell.Identity.parse keycell.Prelude.Utf8.trim_space
    keycell.Prelude.Utf8.decode_rune keycell.Secmem.new auto_lock call_unlock sealed
    keycell.Vault.File.read keycell.Daemon.Store.list keycell.Daemon.Session.with_identity lock
    keycell.Daemon.Server.seconds keycell.Prelude.Int.mul_int64
    keycell.Vault.Validate.validate_attributes
unlocks_for_ever = refl

call_unlock_for_ever_example :
    ((call_unlock toy wire env server (record {
      identity = text "KEY";
      for_seconds = some (pos 9_223_372_037);
    })).0.session.locks_at
      ≡ none)
    × ((call_unlock toy wire env server (record {
      identity = text "KEY";
      for_seconds = some (pos 9_223_372_037);
    })).0.session.timer
        ≡ none)
call_unlock_for_ever_example =
    call_unlock_for_ever toy wire env server (text "KEY") 9_223_372_037 Protocol.empty
      fresh-IsConsistent (omega arith) (omega arith) unlocks_for_ever

-- The identity of "OTHER" does not open the vault.
refused :
    (call_unlock toy wire env open_server
      (record { identity = text "OTHER"; for_seconds = none })).1
    ≡ err (Failure.store (Store.vault keycell.Vault.File.wrong_identity))
unfolding unlock toy keycell.Identity.parse keycell.Prelude.Utf8.trim_space
    keycell.Prelude.Utf8.decode_rune keycell.Secmem.new auto_lock call_unlock sealed
    keycell.Vault.File.read keycell.Daemon.Store.list keycell.Daemon.Session.with_identity lock
    keycell.Daemon.Server.seconds keycell.Prelude.Int.mul_int64
    keycell.Vault.Validate.validate_attributes
refused = refl

call_unlock-err_example :
    Refused toy wire env open_server
      (record { identity = text "OTHER"; for_seconds = none })
      (Failure.store (Store.vault keycell.Vault.File.wrong_identity))
      (call_unlock toy wire env open_server
        (record { identity = text "OTHER"; for_seconds = none })).0
call_unlock-err_example =
    call_unlock-err toy wire env open_server
      (record { identity = text "OTHER"; for_seconds = none })
      (Failure.store (Store.vault keycell.Vault.File.wrong_identity)) opened-IsConsistent refused

handle-IsConsistent_example :
    IsConsistent
      (handle toy wire open_server
        ((env, line (text "lock")) ∷ (env, line (text "status")) ∷ [])).0.session
handle-IsConsistent_example =
    handle-IsConsistent toy wire open_server
      ((env, line (text "lock")) ∷ (env, line (text "status")) ∷ []) opened-IsConsistent

abbrev asks_status : Request
asks_status = record { id = text "1"; method = text "status"; params = [] }

toy-IsTotal : IsTotal toy
unfolding toy
toy-IsTotal = record { marshals = λ v. (_, refl); seals = λ i r p. (_, refl) }

opened_id : opened.id ≡ some 7
unfolding unlock toy keycell.Identity.parse keycell.Prelude.Utf8.trim_space
    keycell.Prelude.Utf8.decode_rune keycell.Secmem.new
opened_id = refl

opened_reads : read toy (good files 0) 7 ≡ ok one_secret
unfolding toy sealed File.read read
opened_reads = refl

abbrev seen : View
seen = record { is_open = true; secrets = λ n. lookup n one_secret.secrets }

opened-Shows : Shows toy 7 opened files seen
opened-Shows = record {
  consistent = opened-IsConsistent;
  holds = opened_id;
  vault = one_secret;
  is_read = opened_reads;
  agrees = λ n. refl;
}

abbrev session_ops : List Op
session_ops =
    store_op 300 1 (text "a") (text "generic") [] (text "v")
    ∷ get_op (text "a")
    ∷ delete_op 2 (text "git/a")
    ∷ get_op (text "git/a")
    ∷ lock_op
    ∷ get_op (text "a")
    ∷ []

run_refines_example : daemon_run toy opened files session_ops ≡ view_run seen session_ops
run_refines_example =
    run_refines toy toy-IsFaithful toy-IsTotal 7 session_ops opened files seen opened-Shows
