-- ===== src/Daemon/Session/Progress.antt =====
-- What the timers of the session do when nothing else happens.
use keycell.Daemon.Session.{Session, Timer, auto_lock}
use keycell.Daemon.Session.Timers.{World, Mem}
use keycell.Prelude.{ℕ, ◌+◌, ◌≤◌, ◌≡◌, some}
use keycell.Vault.File.{Codec}

module _ {I : Type 0} (c : Codec I) where
  -- The timer of a session's time to lock is among the timers that were armed.
  abbrev IsPending : World I → Type 0
  IsPending w =
      (t : ℕ) → w.session.locks_at ≡ some t → Mem (record { gen = w.session.gen; due = t }) w.timers

  -- Time and timers alone: no request reaches the session.
  pub data Idle (w : World I) : World I → Type 0 where
    at_once : Idle w w
    then_fire :
        {u v : World I} (t : Timer)
        → Idle w u
        → Mem t u.timers
        → t.due ≤ u.now
        → v ≡ record u { session = auto_lock t.gen u.session }
        → Idle w v
    then_wait : {u v : World I} (n : ℕ) → Idle w u → v ≡ record u { now = u.now + n } → Idle w v
