-- ===== src/Daemon/Server/Unlocking.antt =====
-- The unlock request, and the durations that it carries.
use keycell.Daemon.Server.{
  Server, Env, Failure, seconds, lock_after, verify_identity, call_unlock, disk, session, store,
}
use keycell.Daemon.Session
use keycell.Daemon.Session.{Session, unlock, lock}
use keycell.Daemon.Session.Invariant.{IsConsistent, IsLocked, lock-IsLocked}
use keycell.Daemon.Session.Installing.{
  Unlocked, unlock-err, unlock-Unlocked, parsed, unlock-IsConsistent,
}
use keycell.Daemon.Store
use keycell.Daemon.Store.{Secret}
use keycell.Identity
use keycell.Vault.File
use keycell.Vault.Model.{Vault}
use keycell.Prelude.{
  ℕ, ◌+◌, ◌*◌, ◌≤◌, ◌<◌, ◌≡◌, inl, inr, arith, none, some, ok, err, Result-cases, List, true, false,
  ◌∙◌, refl, ap,
}
use keycell.Prelude.Bytes.{Bytes}
use keycell.Prelude.Int.{pos, mul_int64, is_pos}
use keycell.Protocol.{UnlockParams, Wire, Answer}
use keycell.Secmem.{Memory}
use keycell.Vault.File.{Codec}

module _ {I : Type 0} (c : Codec I) (w : Wire) where
  -- The server after an unlock request that was answered without an error: the session holds the
  -- identity of the key that was sent, and the vault, and so List, is read with that identity.
  pub record Opened (e : Env) (s : Server I) (p : UnlockParams) (after : Server I) : Type 0 where
    pub identity : I
    pub vault : Vault
    pub secrets : List Secret
    pub parsed : Identity.parse c p.identity ≡ ok identity
    pub unlocked :
        Unlocked e.now
          (Session.duration s.session.default_for (lock_after p.for_seconds))
          s.session
          identity
          p.identity
          after.session
    pub is_read : File.read c (disk c w e after) identity ≡ ok vault
    pub is_listed : verify_identity c w e after ≡ ok secrets
    pub same_files : after.files ≡ s.files

  listed-read :
      (e : Env) (s : Server I) (i : I) (xs : List Secret)
      → s.session.id ≡ some i
      → verify_identity c w e s ≡ ok xs
      → (v : Vault) × (File.read c (disk c w e s) i ≡ ok v)
  unfolding verify_identity Store.list Session.with_identity Store.select Store.read
  listed-read e s i xs has h = elim (Result-cases (File.read c (disk c w e s) i)) [
    | inl got ↦ got
    | inr (x, bad) ↦ absurd (ground arith)
  ]

  -- An unlock request to a consistent session that is answered without an error leaves it
  -- unlocked with the identity of the key that was sent, and the vault was read with it.
  pub call_unlock-ok :
      (e : Env) (s : Server I) (p : UnlockParams) (a : Answer)
      → IsConsistent s.session
      → (call_unlock c w e s p).1 ≡ ok a
      → Opened e s p (call_unlock c w e s p).0
  unfolding call_unlock
  call_unlock-ok e s p a h fine =
      let after = lock_after p.for_seconds in
      let opened = (unlock c e.calls e.now s.session p.identity after).0 in
      elim (Result-cases (unlock c e.calls e.now s.session p.identity after).1) [
        | inr (x, bad) ↦ absurd (ground arith)
        | inl (u, good) ↦
            elim (Result-cases (verify_identity c w e (record s { session = opened }))) [
              | inr (x, bad) ↦ absurd (ground arith)
              | inl (xs, read) ↦
                  let (i, p') = parsed c e.calls e.now s.session p.identity after good in
                  let there : (call_unlock c w e s p).0 ≡ record s { session = opened } =
                    ground arith in
                  let is = unlock-Unlocked c e.calls e.now s.session p.identity after i h p' good in
                  let (v, got) =
                    listed-read e (record s { session = opened }) i xs is.identity read in
                  rw there (record {
                    identity = i;
                    vault = v;
                    secrets = xs;
                    parsed = p';
                    unlocked = is;
                    is_read = got;
                    is_listed = read;
                    same_files = refl;
                  })
            ]
      ]

  -- How an unlock request fails: the session refuses the key, and keeps the identity, the timer and
  -- the time that it had; or the session has taken the key, the vault refuses its identity, and the
  -- session is locked.
  pub data Refused (e : Env) (s : Server I) (p : UnlockParams) (x : Failure) (after : Server I)
      : Type 0 where
    by_session :
        (y : Session.Failure) (m : Memory)
        → (unlock c e.calls e.now s.session p.identity (lock_after p.for_seconds)).1 ≡ err y
        → x ≡ session y
        → after ≡ record s { session = record (s.session) { memory = m } }
        → m.mapped ≡ s.session.memory.mapped
        → Refused e s p x after
    by_vault :
        (y : Store.Error)
        → (unlock c e.calls e.now s.session p.identity (lock_after p.for_seconds)).1 ≡ ok tt
        → x ≡ store y
        → IsLocked after.session
        → after.files ≡ s.files
        → Refused e s p x after

  -- An unlock request to a consistent session that is answered with an error leaves the files. If
  -- the session took the key, it is locked afterwards; if it refused the key, it has the identity,
  -- the timer and the time that it had, and the same memory mapped.
  pub call_unlock-err :
      (e : Env) (s : Server I) (p : UnlockParams) (x : Failure)
      → IsConsistent s.session
      → (call_unlock c w e s p).1 ≡ err x
      → Refused e s p x (call_unlock c w e s p).0
  unfolding call_unlock
  call_unlock-err e s p x h bad =
      let after = lock_after p.for_seconds in
      let opened = (unlock c e.calls e.now s.session p.identity after).0 in
      elim (Result-cases (unlock c e.calls e.now s.session p.identity after).1) [
        | inr (y, refused) ↦
            let (m, same, mapped, _) =
              unlock-err c e.calls e.now s.session p.identity after y h refused in
            let there : (call_unlock c w e s p).0 ≡ record s { session = opened } = ground arith in
            by_session y m refused (ground arith) (there ∙ ap (λ o. record s { session = o }) same)
              mapped
        | inl (u, good) ↦
            elim (Result-cases (verify_identity c w e (record s { session = opened }))) [
              | inl (xs, read) ↦ absurd (ground arith)
              | inr (y, wrong) ↦
                  let there : (call_unlock c w e s p).0 ≡ record s { session = lock opened } =
                    ground arith in
                  by_vault y good (ground arith)
                    (rw there (
                      lock-IsLocked opened
                        (unlock-IsConsistent c e.calls e.now s.session p.identity after h)))
                    (rw there refl)
            ]
      ]

-- The seconds of an unlock request become the auto-lock duration exactly, up to 9223372036 of
-- them (292 years).
seconds_exact : (s : ℕ) → s ≤ 9_223_372_036 → seconds (pos s) ≡ pos (s * 1_000_000_000)
unfolding seconds mul_int64
seconds_exact s h = ground arith

-- Beyond that the product wraps around: for up to twice as many seconds it is negative, and no
-- timer is armed.
seconds_overflow :
    (s : ℕ) → 9_223_372_036 < s → s ≤ 18_446_744_073 → is_pos (seconds (pos s)) ≡ false
unfolding seconds mul_int64
seconds_overflow s h k = ground arith

module _ {I : Type 0} (c : Codec I) (w : Wire) where
  -- An unlock request for s seconds, 1 ≤ s ≤ 9223372036, that a consistent session accepts, makes
  -- it lock s seconds after the request, by a timer of its own.
  call_unlock_for :
      (e : Env) (s : Server I) (key : Bytes) (n : ℕ) (a : Answer)
      → IsConsistent s.session
      → 1 ≤ n
      → n ≤ 9_223_372_036
      → (call_unlock c w e s (record { identity = key; for_seconds = some (pos n) })).1 ≡ ok a
      → let after =
          (call_unlock c w e s (record { identity = key; for_seconds = some (pos n) })).0.session in
        (after.locks_at ≡ some (e.now + n * 1_000_000_000))
        × (after.timer ≡ some (record { gen = after.gen; due = e.now + n * 1_000_000_000 }))
  unfolding Session.duration
  call_unlock_for e s key n a h low high fine =
      let u = (call_unlock-ok c w e s _ a h fine).unlocked in
      let d = seconds_exact n high in
      let p : is_pos (seconds (pos n)) ≡ true = rw d (ground arith) in
      ((u.times ∙ rw (p, d)), (u.timed ∙ rw (p, d)))

  -- An unlock request for s seconds, 9223372036 < s ≤ 18446744073, that a consistent session
  -- accepts, sets no time and arms no timer: the session does not lock by itself.
  pub call_unlock_for_ever :
      (e : Env) (s : Server I) (key : Bytes) (n : ℕ) (a : Answer)
      → IsConsistent s.session
      → 9_223_372_036 < n
      → n ≤ 18_446_744_073
      → (call_unlock c w e s (record { identity = key; for_seconds = some (pos n) })).1 ≡ ok a
      → let after =
          (call_unlock c w e s (record { identity = key; for_seconds = some (pos n) })).0.session in
        (after.locks_at ≡ none) × (after.timer ≡ none)
  unfolding Session.duration
  call_unlock_for_ever e s key n a h low high fine =
      let u = (call_unlock-ok c w e s _ a h fine).unlocked in
      let p = seconds_overflow n low high in ((u.times ∙ rw p), (u.timed ∙ rw p))
