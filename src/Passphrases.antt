-- ===== src/Passphrases.antt =====
-- cmd/keycell/setup.go: the commands init and passphrase. The prompts answer in the order of
-- `entries`; what is printed is left out, and the end of a command is the error or none.
pub mod Asking
pub mod Retries
pub mod Changing
use keycell.Client
use keycell.Identity
use keycell.Identity.Forms.{
  Form, encrypted, unprotected, absent, Dir, Failure, identity, Scrypt, detect,
}
use keycell.Identity.Setup.{Env, init, change_passphrase, set_passphrase, remove_passphrase}
use keycell.Prelude.{
  ℕ, zero, suc, ◌+◌, Bool, true, false, List, [], ◌∷◌, Option, none, some, Result, ok, err, map_err,
  if◌then◌else◌,
}
use keycell.Prelude.Bytes.{Bytes}
use keycell.Terminal
use keycell.Terminal.{confirm}
use keycell.Vault.File.{Codec}

-- Why a command ends with an error.
pub data Problem : Type 0 where
  setup : Failure → Problem
  prompt : Terminal.Error → Problem
  client : Client.Failure → Problem
  no_identity not_protected bad_usage : Problem

-- errors.Is(err, identity.ErrWrongPassphrase)
unfoldable pub is_wrong : Result Problem (Unit {0}) → Bool
is_wrong (err (setup (identity Identity.Error.wrong_passphrase))) = true
is_wrong r = false

-- The data directory, the entries that were asked for, and the new passphrase once it was entered.
pub record Desk : Type 0 where
  pub dir : Dir
  pub asked : ℕ
  pub new_pass : Option Bytes

-- passphraseAttempts, less the first
abbrev pub retries : ℕ
retries = 2

-- askPassphrase, for any state that `answer` reads an entry from.
module _ {T : Type 0} (answer : T → T × Result Terminal.Error Bytes)
    (fn : T → Bytes → T × Result Problem (Unit {0})) where
  -- One turn of the loop.
  unfoldable pub turn : T → T × Result Problem (Unit {0})
  turn t = elim (answer t).1 [
    | err e ↦ ((answer t).0, err (prompt e))
    | ok pass ↦ fn (answer t).0 pass
  ]

  -- The loop, with the number of retries that are left.
  unfoldable pub ask : ℕ → T → T × Result Problem (Unit {0})
  unfolding turn is_wrong
  ask zero t = turn t
  ask (suc n) t = let again = ask n (turn t).0 in if is_wrong (turn t).1 then again else turn t

module _ (entries : ℕ → Result Terminal.Error Bytes) where
  -- a.prompt
  unfoldable pub ask_once : Desk → Desk × Result Terminal.Error Bytes
  ask_once t = (record t { asked = t.asked + 1 }, entries t.asked)

  -- a.prompt.Confirm: the second entry is asked for when the first is one.
  unfoldable pub ask_new : Desk → Desk × Result Terminal.Error Bytes
  ask_new t = elim (entries t.asked) [
    | err e ↦ (record t { asked = t.asked + 1 }, err e)
    | ok [] ↦ (record t { asked = t.asked + 1 }, err Terminal.Error.empty)
    | ok (b ∷ bs) ↦
        (record t { asked = t.asked + 2 }, confirm (ok (b ∷ bs)) (entries (t.asked + 1)))
  ]

  module _ {I : Type 0} (c : Codec I) (k : Scrypt) (e : ℕ → Env) where
    on_dir : Desk → Dir × Result Failure (Unit {0}) → Desk × Result Problem (Unit {0})
    on_dir t (dir, r) = (record t { dir = dir }, map_err setup r)

    -- With the new passphrase entered, which later attempts keep.
    after_new : Bytes → Desk × Result Terminal.Error Bytes → Desk × Result Problem (Unit {0})
    unfolding on_dir
    after_new old (t, err x) = (t, err (prompt x))
    after_new old (t, ok new) =
        on_dir (record t { new_pass = some new }) (change_passphrase c k (e t.asked) t.dir old new)

    change_with : Desk → Bytes → Option Bytes → Desk × Result Problem (Unit {0})
    unfolding ask_new after_new on_dir
    change_with t old (some new) = on_dir t (change_passphrase c k (e t.asked) t.dir old new)
    change_with t old none = after_new old (ask_new t)

    -- The function that changePassphrase hands to askPassphrase.
    unfoldable pub try_change : Desk → Bytes → Desk × Result Problem (Unit {0})
    unfolding change_with
    try_change t old = change_with t old t.new_pass

    -- changePassphrase
    unfoldable pub change : Desk → Desk × Result Problem (Unit {0})
    unfolding ask ask_once try_change
    change t = ask ask_once try_change retries t

    -- The function that `passphrase --remove` hands to askPassphrase.
    unfoldable pub try_remove : Desk → Bytes → Desk × Result Problem (Unit {0})
    unfolding on_dir
    try_remove t old = on_dir t (remove_passphrase c k (e t.asked) t.dir old)

    set_with : Desk × Result Terminal.Error Bytes → Desk × Result Problem (Unit {0})
    unfolding on_dir
    set_with (t, err x) = (t, err (prompt x))
    set_with (t, ok new) = on_dir t (set_passphrase c k (e t.asked) t.dir new)

    set_new : Desk → Desk × Result Problem (Unit {0})
    unfolding ask_new set_with
    set_new t = set_with (ask_new t)

    by_form : Bool → Desk → Form → Desk × Result Problem (Unit {0})
    unfolding change set_new ask ask_once try_remove
    by_form remove t absent = (t, err no_identity)
    by_form true t unprotected = (t, err not_protected)
    by_form false t unprotected = set_new t
    by_form true t encrypted = ask ask_once try_remove retries t
    by_form false t encrypted = change t

    -- passphrase
    unfoldable pub passphrase : List Bytes → Bool → Desk → Desk × Result Problem (Unit {0})
    unfolding by_form detect
    passphrase (a ∷ args) remove t = (t, err bad_usage)
    passphrase [] remove t = elim (detect t.dir) [
      | err x ↦ (t, err (setup x))
      | ok form ↦ by_form remove t form
    ]

    -- initCmd
    unfoldable pub init_cmd : List Bytes → Bool → Desk → Desk × Result Problem (Unit {0})
    unfolding ask_new on_dir
    init_cmd (a ∷ args) no_passphrase t = (t, err bad_usage)
    init_cmd [] true t = on_dir t (init c k (e t.asked) t.dir none)
    init_cmd [] false t = elim (ask_new t).1 [
      | err x ↦ ((ask_new t).0, err (prompt x))
      | ok new ↦ on_dir (ask_new t).0 (init c k (e (ask_new t).0.asked) t.dir (some new))
    ]
