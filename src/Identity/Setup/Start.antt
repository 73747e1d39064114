-- ===== src/Identity/Setup/Start.antt =====
-- The courses that Init takes.
use keycell.Atomicfile.{Files, Faults, write_file, Step}
use keycell.Identity.{parse}
use keycell.Identity.Forms
use keycell.Identity.Forms.{
  Form, encrypted, unprotected, absent, Dir, Failure, identity, exists, make_dir_failed,
  generate_failed, vault_write, Scrypt, is_there, detect, load, write_encrypted, write_plain,
}
use keycell.Identity.Setup.{Env, is_set_up, write_identity, write_vault, fill, init}
use keycell.Prelude.{
  ◌≡◌, ◌≢◌, inl, inr, refl, arith, Bool-cases, true, false, Option, Option-cases, none, some,
  Result-cases, map_err-eq-err, ok, err, [], ◌∷◌, ◌++◌,
}
use keycell.Prelude.Bytes.{Bytes, equal}
use keycell.Prelude.Utf8.{trim_space}
use keycell.Vault.File
use keycell.Vault.File.{Codec, IsFaithful, Disk, write_failed}

-- A directory that Init accepts is empty.
not_set_up :
    {I : Type 0} (c : Codec I) (k : Scrypt) (dir : Dir)
    → is_set_up c k dir ≡ false
    → (dir.age.file ≡ none) × (dir.txt.file ≡ none) × (dir.vault.file ≡ none)
unfolding is_set_up detect
not_set_up c k dir h = by_files dir.age.file dir.txt.file dir.vault.file refl refl refl
  where
    by_files :
        (a t v : Option Bytes)
        → dir.age.file ≡ a
        → dir.txt.file ≡ t
        → dir.vault.file ≡ v
        → (dir.age.file ≡ none) × (dir.txt.file ≡ none) × (dir.vault.file ≡ none)
    by_files none none none p q r = (p, q, r)
    by_files none none (some v) p q r = absurd (ground arith)
    by_files none (some t) v p q r = absurd (ground arith)
    by_files (some a) none v p q r = absurd (ground arith)
    by_files (some a) (some t) v p q r = absurd (ground arith)

write_plain-err :
    (f : Faults) (fs : Files) (b : Bytes) (x : Failure)
    → (write_plain f fs b).1 ≡ err x
    → (s : Step) × (x ≡ Forms.write_failed s)
unfolding write_plain
write_plain-err f fs b x h =
    let (s, _, is) =
      map_err-eq-err Forms.write_failed (write_file f fs (trim_space b ++ b'\n' ∷ []) true).1 h in
    (s, is)

module _ {I : Type 0} (c : Codec I) (k : Scrypt) where
  -- Init either refuses and changes nothing, or fills a directory that was empty.
  pub data Course (e : Env) (dir : Dir) (pass : Option Bytes) : Type 0 where
    refused :
        (x : Failure)
        → ((y : File.Error) → x ≢ vault_write y)
        → init c k e dir pass ≡ (dir, err x)
        → Course e dir pass
    filled :
        (b : Bytes)
        → init c k e dir pass ≡ fill c k e dir pass b
        → (dir.age.file ≡ none) × (dir.txt.file ≡ none) × (dir.vault.file ≡ none)
        → Course e dir pass

  pub init-Course : (e : Env) (dir : Dir) (pass : Option Bytes) → Course e dir pass
  unfolding init
  init-Course e dir pass = elim (Bool-cases e.makes_dir) [
    | inr bad ↦ refused make_dir_failed (λ y q. cc) (rw (bad, init) refl)
    | inl made ↦ elim (Bool-cases (is_set_up c k dir)) [
      | inl there ↦ refused exists (λ y q. cc) (rw (made, there, init) refl)
      | inr new ↦ elim (Option-cases e.generated) [
        | inl bad ↦ refused generate_failed (λ y q. cc) (rw (made, new, bad, init) refl)
        | inr (b, key) ↦ filled b (rw (made, new, key, init) refl) (not_set_up c k dir new)
      ]
    ]
  ]

  -- The steps of a `fill` that comes to the vault.
  pub data Filling (e : Env) (dir : Dir) (pass : Option Bytes) (b : Bytes) : Type 0 where
    early :
        (x : Failure)
        → ((y : File.Error) → x ≢ vault_write y)
        → (fill c k e dir pass b).1 ≡ err x
        → Filling e dir pass b
    late :
        (i : I)
        → parse c b ≡ ok i
        → (write_identity c k e dir pass b).1 ≡ ok tt
        → fill c k e dir pass b ≡ write_vault c k e (write_identity c k e dir pass b).0 i
        → Filling e dir pass b

  write_identity-err :
      (e : Env) (dir : Dir) (pass : Option Bytes) (b : Bytes) (x : Failure)
      → (write_identity c k e dir pass b).1 ≡ err x
      → (y : File.Error) → x ≢ vault_write y
  unfolding write_identity write_plain write_encrypted
  write_identity-err e dir none b x h y q =
      let (s, is) = write_plain-err e.faults dir.txt b x h in cc
  write_identity-err e dir (some pass) b x h y q = elim (Bool-cases (equal pass [])) [
    | inl empty ↦ absurd (ground arith)
    | inr some_pass ↦ elim (Option-cases (k.seal_pass pass e.random b)) [
      | inl bad ↦ absurd (ground arith)
      | inr (sealed, there) ↦
          let (s, bad, is) =
            map_err-eq-err Forms.write_failed (write_file e.faults dir.age sealed true).1
              (rw (some_pass, there, write_encrypted) at h) in
          cc
    ]
  ]

  pub fill-Filling : (e : Env) (dir : Dir) (pass : Option Bytes) (b : Bytes) → Filling e dir pass b
  unfolding fill
  fill-Filling e dir pass b = elim (Result-cases (parse c b)) [
    | inr (x, bad) ↦ early (identity x) (λ y q. cc) (rw (bad, fill) refl)
    | inl (i, p) ↦ elim (Result-cases (write_identity c k e dir pass b).1) [
      | inr (x, bad) ↦ early x (write_identity-err e dir pass b x bad) (rw (p, bad, fill) refl)
      | inl (u, wrote) ↦ late i p wrote (rw (p, wrote, fill) refl)
    ]
  ]
