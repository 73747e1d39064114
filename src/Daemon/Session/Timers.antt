-- ===== src/Daemon/Session/Timers.antt =====
-- Sessions over time: requests, the clock and the timers in any order. A timer that was armed may
-- fire at any time from its due time on, also after Stop, when its goroutine already waits for the
-- lock.
use keycell.Daemon.Session.Invariant.{
  IsConsistent, new_session-IsLocked, lock-IsLocked, IsUnlocked, auto_lock-IsConsistent,
}
use keycell.Daemon.Session.Installing.{
  parsed, unlock-err, unlock-Unlocked, unlock-IsConsistent, Unlocked-IsUnlocked,
}
use keycell.Daemon.Session.{
  Session, Timer, Failure, new_session, is_held, unlock, lock, auto_lock, drop_identity,
}
use mathlib.Core.Path.{subst}
use keycell.Prelude.{
  ℕ, ◌+◌, ◌<◌, ◌≤◌, ◌^◌, Option, none, some, ok, err, ◌≡◌, ◌⊎◌, inl, inr, refl, arith, List, [],
  ◌∷◌, All, true, false, All-map, ◌∙◌, ◌≢◌, sym,
}
use keycell.Prelude.Bytes.{Bytes}
use keycell.Prelude.Int.{ℤ}
use keycell.Secmem.{Calls}
use keycell.Vault.File.{Codec}

-- `timers` holds every timer ever armed; `unlocks` counts the successful calls of Unlock.
pub record World (I : Type 0) : Type 0 where
  pub session : Session I
  pub timers : List Timer
  pub now : ℕ
  pub unlocks : ℕ

-- The timer that a session has just armed, if it did.
abbrev pub add_timer : Option Timer → List Timer → List Timer
add_timer none ts = ts
add_timer (some t) ts = t ∷ ts

abbrev pub Mem : Timer → List Timer → Type 0
Mem t [] = ⊥
Mem t (u ∷ us) = (t ≡ u) ⊎ Mem t us

module _ {I : Type 0} (c : Codec I) where
  abbrev pub armed : World I → Session I → World I
  armed w s = record {
    session = s;
    timers = add_timer s.timer w.timers;
    now = w.now;
    unlocks = w.unlocks + 1;
  }

  pub data Step (w : World I) (w' : World I) : Type 0 where
    unlock_ok :
        (k : Calls) (key : Bytes) (after : Option ℤ)
        → (unlock c k w.now w.session key after).1 ≡ ok tt
        → w' ≡ armed w (unlock c k w.now w.session key after).0
        → Step w w'
    unlock_err :
        (k : Calls) (key : Bytes) (after : Option ℤ) (e : Failure)
        → (unlock c k w.now w.session key after).1 ≡ err e
        → w' ≡ record w { session = (unlock c k w.now w.session key after).0 }
        → Step w w'
    lock_now : w' ≡ record w { session = lock w.session } → Step w w'
    fire :
        (t : Timer)
        → Mem t w.timers
        → t.due ≤ w.now
        → w' ≡ record w { session = auto_lock t.gen w.session }
        → Step w w'
    wait : (n : ℕ) → w' ≡ record w { now = w.now + n } → Step w w'

  pub data Reach (w : World I) : World I → Type 0 where
    here : Reach w w
    next : {u v : World I} → Reach w u → Step u v → Reach w v

  -- A daemon that has just started.
  abbrev pub started : ℤ → ℕ → World I
  started d now = record { session = new_session d; timers = []; now = now; unlocks = 0 }

  -- No timer is newer than the session, and one of its generation is due when the session says
  -- that it locks, unless the session is locked by now.
  abbrev pub Fits : World I → Timer → Type 0
  Fits w t =
      (t.gen ≤ w.unlocks)
      × (t.gen ≡ w.unlocks → (w.session.buf ≡ none) ⊎ (w.session.locks_at ≡ some t.due))

  pub record IsTimed (w : World I) : Type 0 where
    pub shape : IsConsistent w.session
    pub counts : w.session.gen ≡ w.unlocks
    pub fit : All (Fits w) w.timers

  started-IsTimed : (d : ℤ) (now : ℕ) → IsTimed (started d now)
  started-IsTimed d now = record { shape = inl (new_session-IsLocked d); counts = refl; fit = tt }

  -- A step that keeps the generation, and either keeps the lock state or drops the identity.
  keeps-IsTimed :
      (w : World I) (s : Session I) (now : ℕ)
      → IsTimed w
      → IsConsistent s
      → s.gen ≡ w.session.gen
      → (s.buf ≡ none) ⊎ (s.buf ≡ w.session.buf) × (s.locks_at ≡ w.session.locks_at)
      → IsTimed (record w { session = s; now = now })
  keeps-IsTimed w s now h ok_shape g e = record {
    shape = ok_shape;
    counts = g ∙ h.counts;
    fit = All-map (Fits w) _ w.timers (λ t f. (f.0, λ same. pick t e (f.1 same))) h.fit;
  }
    where
      pick :
          (t : Timer)
          → (s.buf ≡ none) ⊎ (s.buf ≡ w.session.buf) × (s.locks_at ≡ w.session.locks_at)
          → (w.session.buf ≡ none) ⊎ (w.session.locks_at ≡ some t.due)
          → (s.buf ≡ none) ⊎ (s.locks_at ≡ some t.due)
      pick t (inl a) f = inl a
      pick t (inr a) (inl b) = inl (a.0 ∙ b)
      pick t (inr a) (inr b) = inr (a.1 ∙ b)

  -- The timer that Unlock armed is due when the session says that it locks.
  add_timer-Fits :
      (v : World I) (ts : List Timer)
      → IsUnlocked v.session
      → v.session.gen ≡ v.unlocks
      → All (Fits v) ts
      → All (Fits v) (add_timer v.session.timer ts)
  add_timer-Fits v ts u g h = elim u.armed [
    | inl (none_armed, _) ↦ subst (λ o. All (Fits v) (add_timer o ts)) (sym none_armed) h
    | inr (t, mine, due) ↦
        subst (λ o. All (Fits v) (add_timer o ts)) (sym mine)
          ((omega (arith, g), λ same. inr due), h)
  ]

  unlocked-IsTimed :
      (w : World I) (k : Calls) (key : Bytes) (after : Option ℤ)
      → (unlock c k w.now w.session key after).1 ≡ ok tt
      → w.unlocks + 1 < 2 ^ 64
      → IsTimed w
      → IsTimed (armed w (unlock c k w.now w.session key after).0)
  unlocked-IsTimed w k key after fine room h =
      let s' = (unlock c k w.now w.session key after).0 in
      let (i, p) = parsed c k w.now w.session key after fine in
      let u = unlock-Unlocked c k w.now w.session key after i h.shape p fine in
      let x = Unlocked-IsUnlocked w.now _ w.session i key s' u in
      let g : s'.gen ≡ w.unlocks + 1 = u.generation ∙ omega (arith, h.counts) in
      let older : All (Fits (armed w s')) w.timers =
        All-map (Fits w) (Fits (armed w s')) w.timers
          (λ t f. (omega (arith, f.0), λ same. absurd (omega (arith, f.0)))) h.fit in
      record { shape = inr x; counts = g; fit = add_timer-Fits (armed w s') w.timers x g older }

  auto_lock-drops :
      (g : ℕ) (s : Session I)
      → ((auto_lock g s).gen ≡ s.gen)
        × (((auto_lock g s).buf ≡ none)
            ⊎ ((auto_lock g s).buf ≡ s.buf) × ((auto_lock g s).locks_at ≡ s.locks_at))
  unfolding auto_lock drop_identity
  auto_lock-drops g s = ground arith

  lock-drops :
      (s : Session I)
      → ((lock s).gen ≡ s.gen)
        × (((lock s).buf ≡ none) ⊎ ((lock s).buf ≡ s.buf) × ((lock s).locks_at ≡ s.locks_at))
  unfolding lock drop_identity
  lock-drops s = ground arith

  unlocks_mono : {w w' : World I} → Step w w' → w.unlocks ≤ w'.unlocks
  unlocks_mono (unlock_ok k key after fine e) = rw e (omega arith)
  unlocks_mono (unlock_err k key after x bad e) = rw e (omega arith)
  unlocks_mono (lock_now e) = rw e (omega arith)
  unlocks_mono (fire t m due e) = rw e (omega arith)
  unlocks_mono (wait n e) = rw e (omega arith)

  Step-IsTimed : {w w' : World I} → Step w w' → w'.unlocks < 2 ^ 64 → IsTimed w → IsTimed w'
  Step-IsTimed {w} (unlock_ok k key after fine e) room h =
      rw e (unlocked-IsTimed w k key after fine (rw e at room) h)
  Step-IsTimed {w} (unlock_err k key after x bad e) room h =
      let (m, same, _, _) = unlock-err c k w.now w.session key after x h.shape bad in
      rw e (
        keeps-IsTimed w _ w.now h (unlock-IsConsistent c k w.now w.session key after h.shape)
          (rw same) (inr (rw same, rw same)))
  Step-IsTimed {w} (lock_now e) room h =
      let d = lock-drops w.session in
      rw e (keeps-IsTimed w _ w.now h (inl (lock-IsLocked w.session h.shape)) d.0 d.1)
  Step-IsTimed {w} (fire t m due e) room h =
      let d = auto_lock-drops t.gen w.session in
      rw e (keeps-IsTimed w _ w.now h (auto_lock-IsConsistent t.gen w.session h.shape) d.0 d.1)
  Step-IsTimed {w} (wait n e) room h =
      rw e (keeps-IsTimed w w.session (w.now + n) h h.shape refl (inr (refl, refl)))

  Reach-IsTimed : {w w' : World I} → Reach w w' → w'.unlocks < 2 ^ 64 → IsTimed w → IsTimed w'
  Reach-IsTimed here room h = h
  Reach-IsTimed (next r st) room h =
      Step-IsTimed st room (Reach-IsTimed r (omega (arith, unlocks_mono st)) h)

  Step-IsConsistent :
      {w w' : World I} → Step w w' → IsConsistent w.session → IsConsistent w'.session
  Step-IsConsistent {w} (unlock_ok k key after fine e) h =
      rw e (unlock-IsConsistent c k w.now w.session key after h)
  Step-IsConsistent {w} (unlock_err k key after x bad e) h =
      rw e (unlock-IsConsistent c k w.now w.session key after h)
  Step-IsConsistent {w} (lock_now e) h = rw e (inl (lock-IsLocked w.session h))
  Step-IsConsistent {w} (fire t m due e) h = rw e (auto_lock-IsConsistent t.gen w.session h)
  Step-IsConsistent (wait n e) h = rw e h

  -- In every state that a fresh session reaches, by Unlock, Lock, timers and time in any order,
  -- it is locked with nothing mapped, no timer and no time, or it holds one identity in the one
  -- mapped region, and a timer of its own generation, due then, exactly when it has a time to lock.
  pub Reach-IsConsistent :
      (d : ℤ) (now : ℕ) (w : World I) → Reach (started d now) w → IsConsistent w.session
  Reach-IsConsistent d now w here = inl (new_session-IsLocked d)
  Reach-IsConsistent d now w (next {u} r st) = Step-IsConsistent st (Reach-IsConsistent d now u r)

  All-Mem : (P : Timer → Type 0) (t : Timer) (ts : List Timer) → Mem t ts → All P ts → P t
  All-Mem P t [] m h = elim m [ ]
  All-Mem P t (u ∷ us) (inl e) h = rw e h.0
  All-Mem P t (u ∷ us) (inr m) h = All-Mem P t us m h.1

  auto_lock_hits :
      (g : ℕ) (s : Session I)
      → is_held s ≡ true
      → is_held (auto_lock g s) ≡ false
      → (g ≡ s.gen) × (s.buf ≢ none)
  unfolding auto_lock
  auto_lock_hits g s h k = ground arith

  -- A timer never locks early: when one that was armed for an earlier Unlock, or for this one,
  -- fires and locks the session, then the session's own time to lock has come. With fewer than
  -- 2^64 calls of Unlock.
  pub auto_lock_not_early :
      (d : ℤ) (now : ℕ) (w : World I) (t : Timer)
      → Reach (started d now) w
      → w.unlocks < 2 ^ 64
      → Mem t w.timers
      → t.due ≤ w.now
      → is_held w.session ≡ true
      → is_held (auto_lock t.gen w.session) ≡ false
      → (at : ℕ) × (w.session.locks_at ≡ some at) × (at ≤ w.now)
  auto_lock_not_early d now w t r room m due held dropped =
      let h = Reach-IsTimed r room (started-IsTimed d now) in
      let hit = auto_lock_hits t.gen w.session held dropped in
      elim ((All-Mem (Fits w) t w.timers m h.fit).1 (hit.0 ∙ h.counts)) [
        | inl gone ↦ absurd (hit.1 gone)
        | inr at ↦ (t.due, at, due)
      ]
