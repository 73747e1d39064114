-- ===== src/Daemon/Session/Installing.antt =====
-- What Unlock does to a session, on both of its outcomes.
use keycell.Daemon.Session.{
  Session, Failure, drop_identity, unlock, release, duration, swap, pos_part,
}
use keycell.Prelude.{
  ℕ, ◌+◌, ◌%◌, ◌^◌, Option, none, some, ok, err, ◌≡◌, inl, inr, refl, arith, [], ◌∷◌, length,
  Result-cases, Bool-cases, if◌then◌else◌, ◌≤◌, ◌∙◌, replicate, drop, ◌++◌, Bool-cases, ◌≤◌, ◌∙◌,
}
use keycell.Prelude.Bytes.{Bytes}
use keycell.Prelude.Int.{ℤ, is_pos}
use keycell.Secmem
use keycell.Secmem.{Memory, Calls, Buffer, Region, unmap}
use keycell.Identity
use keycell.Secmem.Regions.{new-err, new-ok, fill-absent}
use keycell.Vault.File.{Codec}
use keycell.Daemon.Session.Invariant.{IsUnlocked, IsConsistent, IsOlder-mapped}

fresh-release : (o : Option Buffer) (m : Memory) → (release o m).fresh ≡ m.fresh
unfolding release Secmem.destroy
fresh-release none m = refl
fresh-release (some b) m = refl

module _ {I : Type 0} where
  -- A session whose memory alone changed, with the same regions.
  remember-IsConsistent :
      (s : Session I) (m : Memory)
      → m.mapped ≡ s.memory.mapped
      → s.memory.fresh ≤ m.fresh
      → IsConsistent s
      → IsConsistent (record s { memory = m })
  remember-IsConsistent s m same grows (inl h) = inl (record {
    no_buf = h.no_buf;
    no_id = h.no_id;
    no_timer = h.no_timer;
    no_time = h.no_time;
    nothing_mapped = same ∙ h.nothing_mapped;
  })
  remember-IsConsistent s m same grows (inr h) = inr (record {
    b = h.b;
    i = h.i;
    content = h.content;
    has_buf = h.has_buf;
    has_id = h.has_id;
    one_mapped = same ∙ h.one_mapped;
    older = omega (arith, h.older);
    armed = h.armed;
  })

  -- Dropping the old identity, with the new region already mapped, leaves the new region alone.
  dropped_mapped :
      (s : Session I) (n : ℕ) (x : Bytes) (rest : Memory)
      → IsConsistent s
      → s.memory.fresh ≤ n
      → rest.mapped ≡ record { handle = n; content = x } ∷ s.memory.mapped
      → (drop_identity (record s { memory = rest })).memory.mapped
        ≡ record { handle = n; content = x } ∷ []
  unfolding drop_identity Secmem.destroy
  dropped_mapped s n x rest (inl h) le e = rw (h.no_buf, release) (e ∙ rw h.nothing_mapped)
  dropped_mapped s n x rest (inr h) le e =
      rw (h.has_buf, release, e, h.one_mapped) (ground (arith, h.older))

  -- What a successful Unlock has done.
  pub record Unlocked (now : ℕ) (d : ℤ) (s : Session I) (i : I) (encoded : Bytes)
      (after : Session I) : Type 0 where
    pub buffer : Buffer
    pub padding : Bytes
    pub holds : after.buf ≡ some buffer
    pub identity : after.id ≡ some i
    pub mapped :
        after.memory.mapped ≡ record { handle = buffer.handle; content = encoded ++ padding } ∷ []
    pub fresh : buffer.handle + 1 ≤ after.memory.fresh
    pub generation : after.gen ≡ (s.gen + 1) % 2 ^ 64
    pub kept : after.default_for ≡ s.default_for
    pub times : after.locks_at ≡ (if is_pos d then some (now + pos_part d) else none)
    pub timed :
        after.timer
        ≡ (if is_pos d then some (record { gen = after.gen; due = now + pos_part d }) else none)

  filled :
      (s : Session I) (m : Memory) (b : Buffer) (encoded : Bytes) (z : ℕ)
      → IsConsistent s
      → b.handle ≡ s.memory.fresh
      → m.mapped ≡ record { handle = s.memory.fresh; content = replicate z 0 } ∷ s.memory.mapped
      → Secmem.fill b.handle encoded m.mapped
        ≡ record { handle = b.handle; content = encoded ++ drop (length encoded) (replicate z 0) }
          ∷ s.memory.mapped
  unfolding Secmem.fill
  filled s m b encoded z h hb hm =
      rw (hm, hb)
        (ground (arith, fill-absent s.memory.fresh encoded s.memory.mapped (IsOlder-mapped s h)))

  swap-Unlocked :
      (now : ℕ) (s : Session I) (m : Memory) (b : Buffer) (i : I) (encoded : Bytes) (d : ℤ) (z : ℕ)
      → IsConsistent s
      → b.handle ≡ s.memory.fresh
      → m.mapped ≡ record { handle = s.memory.fresh; content = replicate z 0 } ∷ s.memory.mapped
      → m.fresh ≡ s.memory.fresh + 1
      → Unlocked now d s i encoded (swap now s m b i encoded d)
  unfolding swap
  swap-Unlocked now s m b i encoded d z h hb hm hf =
      let m' : Memory = record m { mapped = Secmem.fill b.handle encoded m.mapped } in
      let alone = dropped_mapped s b.handle _ m' h (omega arith) (filled s m b encoded z h hb hm) in
      let room : b.handle + 1 ≤ (release s.buf m').fresh =
        rw (fresh-release s.buf m') (omega arith) in
      elim (Bool-cases (is_pos d)) [
        | inl e ↦ record {
          buffer = b;
          padding = drop (length encoded) (replicate z 0);
          holds = rw e;
          identity = rw e;
          mapped = rw e alone;
          fresh = rw e room;
          generation = rw e;
          kept = rw e;
          times = rw e;
          timed = rw e;
        }
        | inr e ↦ record {
          buffer = b;
          padding = drop (length encoded) (replicate z 0);
          holds = rw e;
          identity = rw e;
          mapped = rw e alone;
          fresh = rw e room;
          generation = rw e;
          kept = rw e;
          times = rw e;
          timed = rw e;
        }
      ]

  pub parsed :
      (c : Codec I) (k : Calls) (now : ℕ) (s : Session I) (encoded : Bytes) (after : Option ℤ)
      → (unlock c k now s encoded after).1 ≡ ok tt
      → (i : I) × (Identity.parse c encoded ≡ ok i)
  unfolding unlock
  parsed c k now s encoded after fine = elim (Result-cases (Identity.parse c encoded)) [
    | inl found ↦ found
    | inr (e, bad) ↦ absurd (ground arith)
  ]

  -- Unlock with a key that age parses either installs it, or fails on the memory alone.
  pub unlock-Unlocked :
      (c : Codec I) (k : Calls) (now : ℕ) (s : Session I) (encoded : Bytes) (after : Option ℤ)
      (i : I)
      → IsConsistent s
      → Identity.parse c encoded ≡ ok i
      → (unlock c k now s encoded after).1 ≡ ok tt
      → Unlocked now (duration s.default_for after) s i encoded (unlock c k now s encoded after).0
  unfolding unlock
  unlock-Unlocked c k now s encoded after i h p fine =
      elim (Result-cases (Secmem.new k (length encoded) s.memory).1) [
        | inr (e, bad) ↦ absurd (ground arith)
        | inl (b, got) ↦
            let (z, hb, hm, hf) = new-ok k (length encoded) s.memory b got in
            rw (p, got, unlock) (swap-Unlocked now s _ b i encoded _ z h hb hm hf)
      ]

  -- Unlock that fails leaves the lock state, the timer and the mapped regions as they were.
  pub unlock-err :
      (c : Codec I) (k : Calls) (now : ℕ) (s : Session I) (encoded : Bytes) (after : Option ℤ)
      (e : Failure)
      → IsConsistent s
      → (unlock c k now s encoded after).1 ≡ err e
      → (m : Memory) × ((unlock c k now s encoded after).0 ≡ record s { memory = m })
        × (m.mapped ≡ s.memory.mapped)
        × (s.memory.fresh ≤ m.fresh)
  unfolding unlock
  unlock-err c k now s encoded after e h bad = elim (Result-cases (Identity.parse c encoded)) [
    | inr (x, p) ↦ (s.memory, rw (p, unlock), refl, omega arith)
    | inl (i, p) ↦ elim (Result-cases (Secmem.new k (length encoded) s.memory).1) [
      | inl (b, got) ↦ absurd (ground arith)
      | inr (x, lost) ↦
          let kept = new-err k (length encoded) s.memory x (IsOlder-mapped s h) lost in
          ((Secmem.new k (length encoded) s.memory).0, rw (p, lost, unlock), kept.0, kept.1)
    ]
  ]

  pub Unlocked-IsUnlocked :
      (now : ℕ) (d : ℤ) (s : Session I) (i : I) (encoded : Bytes) (after : Session I)
      → Unlocked now d s i encoded after
      → IsUnlocked after
  Unlocked-IsUnlocked now d s i encoded after u = record {
    b = u.buffer;
    i = i;
    content = encoded ++ u.padding;
    has_buf = u.holds;
    has_id = u.identity;
    one_mapped = u.mapped;
    older = omega (arith, u.fresh);
    armed = elim (Bool-cases (is_pos d)) [
      | inl e ↦ inr (now + pos_part d, rw e at u.timed, rw e at u.times)
      | inr e ↦ inl (rw e at u.timed, rw e at u.times)
    ];
  }

  -- Unlock keeps the shape of the session, whether it succeeds or fails.
  pub unlock-IsConsistent :
      (c : Codec I) (k : Calls) (now : ℕ) (s : Session I) (encoded : Bytes) (after : Option ℤ)
      → IsConsistent s
      → IsConsistent (unlock c k now s encoded after).0
  unlock-IsConsistent c k now s encoded after h =
      elim (Result-cases (unlock c k now s encoded after).1) [
        | inr (e, bad) ↦
            let (m, same, mapped, grows) = unlock-err c k now s encoded after e h bad in
            rw same (remember-IsConsistent s m mapped grows h)
        | inl (u, fine) ↦
            let (i, p) = parsed c k now s encoded after fine in
            inr (
              Unlocked-IsUnlocked now _ s i encoded _
                (unlock-Unlocked c k now s encoded after i h p fine))
      ]
