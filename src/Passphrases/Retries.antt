-- ===== src/Passphrases/Retries.antt =====
-- The entries of an old passphrase: what a wrong one leaves, and where a success comes from.
use keycell.Atomicfile.{Files, Faults, Step, write_file}
use keycell.Identity.Forms.{
  encrypted, Scrypt, Dir, Failure, write_failed, write_encrypted, write_plain,
}
use keycell.Identity.Setup.{Env, load_as, remove_age, change_passphrase, remove_passphrase}
use keycell.Passphrases.{Problem, setup, is_wrong, Desk, ask_once, turn, ask}
use keycell.Prelude.{
  ◌≡◌, refl, ap, ◌∙◌, arith, ℕ, zero, suc, true, false, Bool-cases, [], ◌∷◌, Option-cases, Result,
  Result-cases, ok, err, inl, inr, map_err, ◌++◌,
}
use keycell.Prelude.Bytes.{Bytes, equal}
use keycell.Prelude.Utf8.{trim_space}
use keycell.Terminal
use keycell.Vault.File.{Codec}

module _ (entries : ℕ → Result Terminal.Error Bytes)
    (fn : Desk → Bytes → Desk × Result Problem (Unit {0}))
    (keeps : (t : Desk) (p : Bytes) → is_wrong (fn t p).1 ≡ true → (fn t p).0.dir ≡ t.dir) where
  turn_keeps :
      (t : Desk)
      → is_wrong (turn (ask_once entries) fn t).1 ≡ true
      → (turn (ask_once entries) fn t).0.dir ≡ t.dir
  unfolding turn ask_once is_wrong
  turn_keeps t h = elim (Result-cases (entries t.asked)) [
    | inr (e, bad) ↦ rw (bad, turn) refl
    | inl (p, got) ↦ rw (got, turn) (keeps (ask_once entries t).0 p (rw (got, turn) at h))
  ]

  -- Where a success comes from: a call on an entry, with the directory as it was.
  pub record Success (t : Desk) (end : Desk × Result Problem (Unit {0})) : Type 0 where
    pub at_call : Desk
    pub entry : Bytes
    pub same_dir : at_call.dir ≡ t.dir
    pub is_end : fn at_call entry ≡ end

  turn-Success :
      (t : Desk)
      → (turn (ask_once entries) fn t).1 ≡ ok tt
      → Success t (turn (ask_once entries) fn t)
  unfolding turn ask_once
  turn-Success t h = elim (Result-cases (entries t.asked)) [
    | inr (e, bad) ↦ absurd (ground arith)
    | inl (p, got) ↦ record {
      at_call = (ask_once entries t).0;
      entry = p;
      same_dir = refl;
      is_end = rw (got, turn) refl;
    }
  ]

  pub ask-Success :
      (n : ℕ) (t : Desk)
      → (ask (ask_once entries) fn n t).1 ≡ ok tt
      → Success t (ask (ask_once entries) fn n t)
  unfolding ask
  ask-Success zero t h = turn-Success t h
  ask-Success (suc n) t h = elim (Bool-cases (is_wrong (turn (ask_once entries) fn t).1)) [
    | inr other ↦ rw (other, ask) (turn-Success t (rw (other, ask) at h))
    | inl wrong ↦
        let s = ask-Success n (turn (ask_once entries) fn t).0 (rw (wrong, ask) at h) in
        rw (wrong, ask)
          (record {
            at_call = s.at_call;
            entry = s.entry;
            same_dir = s.same_dir ∙ turn_keeps t wrong;
            is_end = s.is_end;
          })
  ]

module _ {I : Type 0} (c : Codec I) (k : Scrypt) where
  abbrev IsWrong : Dir × Result Failure (Unit {0}) → Type 0
  IsWrong r = is_wrong (map_err setup r.1) ≡ true

  -- A failed write is no wrong passphrase.
  is_wrong-write :
      (r : Result Step (Unit {0})) → is_wrong (map_err setup (map_err write_failed r)) ≡ false
  unfolding is_wrong
  is_wrong-write (ok u) = refl
  is_wrong-write (err s) = refl

  is_wrong-encrypted :
      (f : Faults) (r : ℕ) (fs : Files) (b pass : Bytes)
      → is_wrong (map_err setup (write_encrypted c k f r fs b pass).1) ≡ false
  unfolding write_encrypted is_wrong
  is_wrong-encrypted f r fs b pass = elim (Bool-cases (equal pass [])) [
    | inl empty ↦ rw (empty, write_encrypted) refl
    | inr some_pass ↦ elim (Option-cases (k.seal_pass pass r b)) [
      | inl bad ↦ rw (some_pass, write_encrypted, bad) refl
      | inr (x, sealed) ↦
          rw (some_pass, write_encrypted, sealed) (is_wrong-write (write_file f fs x true).1)
    ]
  ]

  is_wrong-plain :
      (f : Faults) (fs : Files) (b : Bytes)
      → is_wrong (map_err setup (write_plain f fs b).1) ≡ false
  unfolding write_plain
  is_wrong-plain f fs b = is_wrong-write (write_file f fs (trim_space b ++ b'\n' ∷ []) true).1

  pub change_wrong :
      (e : Env) (dir : Dir) (old new : Bytes)
      → IsWrong (change_passphrase c k e dir old new)
      → (change_passphrase c k e dir old new).0 ≡ dir
  unfolding change_passphrase
  change_wrong e dir old new h = elim (Result-cases (load_as c k e dir encrypted old)) [
    | inr (x, bad) ↦ rw (bad, change_passphrase) refl
    | inl (b, fine) ↦
        absurd (
          cc
            (rw (fine, change_passphrase) at h, is_wrong-encrypted e.faults e.random dir.age b new))
  ]

  pub remove_wrong :
      (e : Env) (dir : Dir) (old : Bytes)
      → IsWrong (remove_passphrase c k e dir old)
      → (remove_passphrase c k e dir old).0 ≡ dir
  unfolding remove_passphrase remove_age write_plain is_wrong
  remove_wrong e dir old h = elim (Result-cases (load_as c k e dir encrypted old)) [
    | inr (x, bad) ↦ rw (bad, remove_passphrase) refl
    | inl (b, fine) ↦ elim (Result-cases (write_plain e.faults dir.txt b).1) [
      | inl (u, wrote) ↦ elim (Bool-cases e.removes) [
        | inl goes ↦ absurd (cc (rw (fine, remove_passphrase, wrote, remove_age, goes) at h))
        | inr stays ↦ absurd (cc (rw (fine, remove_passphrase, wrote, remove_age, stays) at h))
      ]
      | inr (x, bad) ↦ absurd (
          cc (
            rw (fine, remove_passphrase, bad) at h,
            ap (λ r. is_wrong (map_err setup r)) bad,
            is_wrong-plain e.faults dir.txt b,
          ))
    ]
  ]
