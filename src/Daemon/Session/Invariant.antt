-- ===== src/Daemon/Session/Invariant.antt =====
-- The shape of the session in every state that its methods reach.
use keycell.Daemon.Session.{
  Session, Timer, new_session, is_held, drop_identity, lock, auto_lock, release, not,
}
use keycell.Prelude.{
  ℕ, true, false, none, some, ◌≡◌, ◌⊎◌, inl, inr, refl, arith, [], ◌∷◌, ◌==◌, Bool-cases, not, ◌||◌,
  ◌<◌, Bool-cases,
}
use keycell.Prelude.Bytes.{Bytes}
use keycell.Prelude.Int.{ℤ}
use keycell.Secmem
use keycell.Secmem.{Memory, Calls, Buffer, Region, unmap}
use keycell.Secmem.Regions.{IsOlder}

module _ {I : Type 0} where
  -- Locked: no identity, no timer, no time, and nothing mapped.
  pub record IsLocked (s : Session I) : Type 0 where
    pub no_buf : s.buf ≡ none
    pub no_id : s.id ≡ none
    pub no_timer : s.timer ≡ none
    pub no_time : s.locks_at ≡ none
    pub nothing_mapped : s.memory.mapped ≡ []

  -- Unlocked: one region is mapped, and if a time is set, a timer of this generation is due then.
  pub record IsUnlocked (s : Session I) : Type 0 where
    pub b : Buffer
    pub i : I
    pub content : Bytes
    pub has_buf : s.buf ≡ some b
    pub has_id : s.id ≡ some i
    pub one_mapped : s.memory.mapped ≡ record { handle = b.handle; content = content } ∷ []
    pub older : b.handle < s.memory.fresh
    pub armed :
        (s.timer ≡ none) × (s.locks_at ≡ none)
        ⊎ ((t : ℕ) × (s.timer ≡ some (record { gen = s.gen; due = t })) × (s.locks_at ≡ some t))

  abbrev pub IsConsistent : Session I → Type 0
  IsConsistent s = IsLocked s ⊎ IsUnlocked s

  pub new_session-IsLocked : (d : ℤ) → IsLocked (new_session {I = I} d)
  new_session-IsLocked d = record {
    no_buf = refl;
    no_id = refl;
    no_timer = refl;
    no_time = refl;
    nothing_mapped = refl;
  }

  pub drop_identity-IsLocked : (s : Session I) → IsConsistent s → IsLocked (drop_identity s)
  unfolding drop_identity Secmem.destroy
  drop_identity-IsLocked s (inl h) = record {
    no_buf = refl;
    no_id = refl;
    no_timer = refl;
    no_time = refl;
    nothing_mapped = rw (h.no_buf, release) h.nothing_mapped;
  }
  drop_identity-IsLocked s (inr h) = record {
    no_buf = refl;
    no_id = refl;
    no_timer = refl;
    no_time = refl;
    nothing_mapped = rw (h.has_buf, release, h.one_mapped) (ground arith);
  }

  pub not_held-IsLocked : (s : Session I) → IsConsistent s → is_held s ≡ false → IsLocked s
  not_held-IsLocked s (inl h) e = h
  not_held-IsLocked s (inr h) e = absurd (ground (arith, h.has_buf))

  -- Lock makes a consistent session locked: nothing of the identity stays mapped, and no timer runs.
  pub lock-IsLocked : (s : Session I) → IsConsistent s → IsLocked (lock s)
  unfolding lock
  lock-IsLocked s h = elim (Bool-cases (is_held s)) [
    | inl e ↦ rw e (drop_identity-IsLocked s h)
    | inr e ↦ rw e (not_held-IsLocked s h e)
  ]

  pub auto_lock-IsConsistent :
      (g : ℕ) (s : Session I) → IsConsistent s → IsConsistent (auto_lock g s)
  unfolding auto_lock
  auto_lock-IsConsistent g s h = elim (Bool-cases (not (is_held s) || not (s.gen == g))) [
    | inl e ↦ rw e h
    | inr e ↦ rw e (inl (drop_identity-IsLocked s h))
  ]

  pub IsOlder-mapped : (s : Session I) → IsConsistent s → IsOlder s.memory.fresh s.memory.mapped
  IsOlder-mapped s (inl h) = rw h.nothing_mapped tt
  IsOlder-mapped s (inr h) = rw h.one_mapped (h.older, tt)

  fires :
      (s : Session I) (u : Timer)
      → IsConsistent s
      → s.timer ≡ some u
      → (is_held s ≡ true) × (u.gen ≡ s.gen)
  fires s u (inl h) e = absurd (cc (h.no_timer))
  fires s u (inr h) e = elim h.armed [
    | inl (off, _) ↦ absurd (cc)
    | inr (t, mine, _) ↦ (rw h.has_buf, ground arith)
  ]

  -- The timer that a consistent session has armed locks it when it fires.
  pub auto_lock-IsLocked :
      (s : Session I) (u : Timer) → IsConsistent s → s.timer ≡ some u → IsLocked (auto_lock u.gen s)
  unfolding auto_lock
  auto_lock-IsLocked s u h e =
      let (held, mine) = fires s u h e in
      let test : (not (is_held s) || not (s.gen == u.gen)) ≡ false = ground arith in
      rw test (drop_identity-IsLocked s h)
