-- ===== src/Unlock.antt =====
-- cmd/keycell/unlock.go and status.go: the commands unlock, status and lock, and the state of the
-- daemon as they print it, with the figures in place of the text.
pub mod Sends
pub mod Shown
use keycell.Client
use keycell.Client.{Sentinel, sentinel}
use keycell.Identity
use keycell.Identity.Forms.{
  Form, encrypted, unprotected, absent, Dir, Failure, identity, Scrypt, content_of, detect,
  load_file, plain_file, encrypted_file,
}
use keycell.Passphrases.{Problem, setup, prompt, client, no_identity, bad_usage, retries, ask}
use keycell.Prelude.{
  ℕ, ◌+◌, ◌-◌, ◌*◌, ◌/◌, ◌%◌, Bool, true, false, List, [], ◌∷◌, Option, none, some, Result, ok, err,
  if◌then◌else◌, ltb, ◌==◌, map_err,
}
use keycell.Prelude.Bytes.{Bytes}
use keycell.Terminal
use keycell.Vault.File.{Codec}

-- Client.Status
pub record Status : Type 0 where
  pub locked : Bool
  pub locks_at : Option ℕ

-- The calls of the client that the commands make.
pub record Daemon (S : Type 0) : Type 0 where
  pub connect : S → Result Client.Failure (Unit {0})
  pub status : S → Result Client.Failure Status
  pub unlock : S → Bytes → Option ℕ → S × Result Client.Failure (Unit {0})
  pub lock : S → S × Result Client.Failure (Unit {0})

abbrev pub minute : ℕ
minute = 60_000_000_000

-- Duration.Round(time.Minute), for a duration that is not negative
unfoldable pub round_minute : ℕ → ℕ
round_minute d = let r = d % minute in if ltb (r + r) minute then d - r else d + (minute - r)

-- What formatRemaining prints: "<1m", "5m", "1h5m".
pub data Remaining : Type 0 where
  under_minute : Remaining
  minutes : ℕ → Remaining
  hours : ℕ → ℕ → Remaining

-- formatRemaining, once the duration is rounded
unfoldable pub format_rounded : ℕ → Remaining
format_rounded d =
    if ltb d minute
    then under_minute
    else let h = d / (60 * minute) in
      let m = (d % (60 * minute)) / minute in if h == 0 then minutes m else hours h m

-- formatRemaining; a negative duration prints like none.
unfoldable pub format_remaining : ℕ → Remaining
unfolding round_minute format_rounded
format_remaining d = format_rounded (round_minute d)

pub data LockState : Type 0 where
  is_locked no_auto_lock : LockState
  locks_in : Remaining → LockState

-- lockState, at the time `now`
unfoldable pub lock_state : Status → ℕ → LockState
unfolding format_remaining
lock_state st now =
    if st.locked
    then is_locked
    else elim st.locks_at [ none ↦ no_auto_lock | some t ↦ locks_in (format_remaining (t - now)) ]

-- What `status` reports of the daemon, after the socket and the form of the identity.
pub data Report : Type 0 where
  daemon_is : LockState → Report
  not_running : Report
  failed : Client.Failure → Report

module _ {S : Type 0} (d : Daemon S) where
  -- daemonStatus
  unfoldable pub daemon_status : S → Result Client.Failure Status
  daemon_status st = elim (d.connect st) [ err e ↦ err e | ok _ ↦ d.status st ]

  -- status
  unfoldable pub status : S → ℕ → Report
  unfolding daemon_status lock_state
  status st now = elim (daemon_status st) [
    | ok s ↦ daemon_is (lock_state s now)
    | err e ↦ elim (sentinel e) [
      | some Sentinel.not_running ↦ not_running
      | some _ ↦ failed e
      | none ↦ failed e
    ]
  ]

  -- lock
  unfoldable pub lock : S → S × Result Client.Failure (Unit {0})
  lock st = elim (d.connect st) [ err e ↦ (st, err e) | ok _ ↦ d.lock st ]

  -- The daemon, and the number of entries that were asked for.
  abbrev pub Desk : Type 0
  Desk = S × ℕ

  module _ {I : Type 0} (c : Codec I) (k : Scrypt) (reads : Bool) (dir : Dir) (dur : Option ℕ) where
    -- send
    unfoldable pub send : Desk → Bytes → Desk × Result Problem (Unit {0})
    send (st, n) key = let (st', r) = d.unlock st key dur in ((st', n), map_err client r)

    -- The function that unlock hands to askPassphrase.
    unfoldable pub try_unlock : Desk → Bytes → Desk × Result Problem (Unit {0})
    unfolding send
    try_unlock t pass = elim (load_file c k encrypted_file (content_of reads dir.age.file) pass) [
      | err x ↦ (t, err (setup x))
      | ok key ↦ send t key
    ]

    send_plain : Desk → Desk × Result Problem (Unit {0})
    unfolding send
    send_plain t = elim (load_file c k plain_file (content_of reads dir.txt.file) []) [
      | err x ↦ (t, err (setup x))
      | ok key ↦ send t key
    ]

    module _ (entries : ℕ → Result Terminal.Error Bytes) where
      next_entry : Desk → Desk × Result Terminal.Error Bytes
      next_entry (st, n) = ((st, n + 1), entries n)

      by_form : Form → Desk → Desk × Result Problem (Unit {0})
      unfolding send_plain ask next_entry try_unlock
      by_form absent t = (t, err no_identity)
      by_form unprotected t = send_plain t
      by_form encrypted t = ask next_entry try_unlock retries t

      -- What unlock does to a daemon that it finds locked; nothing, to one that is unlocked.
      when_locked : Form → Status → Desk → Desk × Result Problem (Unit {0})
      unfolding by_form
      when_locked form s t = if s.locked then by_form form t else (t, ok tt)

      asked : Form → Desk → Desk × Result Problem (Unit {0})
      unfolding when_locked daemon_status
      asked form t = elim (daemon_status t.0) [
        | err e ↦ (t, err (client e))
        | ok s ↦ when_locked form s t
      ]

      reached : Form → Desk → Desk × Result Problem (Unit {0})
      unfolding asked
      reached absent t = (t, err no_identity)
      reached form t = asked form t

      -- unlock: `bad_duration` says that --for is no duration or a negative one. The status that it
      -- prints at the end is left out.
      unfoldable pub unlock : List Bytes → Bool → Desk → Desk × Result Problem (Unit {0})
      unfolding reached detect
      unlock (a ∷ args) bad_duration t = (t, err bad_usage)
      unlock [] true t = (t, err bad_usage)
      unlock [] false t = elim (detect dir) [
        | err x ↦ (t, err (setup x))
        | ok form ↦ reached form t
      ]
