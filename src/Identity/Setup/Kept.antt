-- ===== src/Identity/Setup/Kept.antt =====
-- What the changes of the passphrase keep of the identity, whatever fails.
use keycell.Atomicfile.{Files, Faults}
use keycell.Atomicfile.Replace.{write_file_keeps}
use keycell.Identity.Forms.{Form, encrypted, unprotected, Dir, Scrypt, write_encrypted, write_plain}
use keycell.Identity.Setup.{
  Env, load_as, remove_txt, remove_age, change_passphrase, set_passphrase, remove_passphrase,
}
use keycell.Identity.Setup.Loads.{write_encrypted-ok, write_plain-ok}
use keycell.Prelude.{
  ◌≡◌, ◌⊎◌, inl, inr, refl, Bool-cases, Option-cases, some, Result-cases, ok, [], ◌∷◌, ◌++◌, ℕ,
}
use keycell.Prelude.Bytes.{Bytes, equal}
use keycell.Prelude.Utf8.{trim_space}
use keycell.Vault.File.{Codec}

module _ {I : Type 0} (c : Codec I) (k : Scrypt) where
  -- The file that held the identity is there, or its content in the backup.
  abbrev pub IsKept : Bytes → Files → Type 0
  IsKept b fs = (fs.file ≡ some b) ⊎ (fs.backup ≡ some b)

  write_encrypted-IsKept :
      (f : Faults) (r : ℕ) (fs : Files) (x pass b : Bytes)
      → fs.file ≡ some b
      → IsKept b (write_encrypted c k f r fs x pass).0
  unfolding write_encrypted
  write_encrypted-IsKept f r fs x pass b h = elim (Bool-cases (equal pass [])) [
    | inl empty ↦ inl (rw (empty, write_encrypted) h)
    | inr some_pass ↦ elim (Option-cases (k.seal_pass pass r x)) [
      | inl bad ↦ inl (rw (some_pass, bad, write_encrypted) h)
      | inr (e, sealed) ↦ rw (some_pass, sealed, write_encrypted) (write_file_keeps f fs e b h)
    ]
  ]

  -- The key that SetPassphrase or RemovePassphrase read stands in the new file.
  pub record Moved (e : Env) (dir : Dir) (form : Form) (pass : Bytes) (written : Bytes → Type 0)
      : Type 0 where
    pub key : Bytes
    pub loaded : load_as c k e dir form pass ≡ ok key
    pub is_written : written key

  -- The file is what age seals the key to with the new passphrase, or the key on a line.
  abbrev pub SealedIn : Env → Bytes → Dir → Bytes → Type 0
  SealedIn e new dir key =
      (x : Bytes) × (k.seal_pass new e.random key ≡ some x) × (dir.age.file ≡ some x)

  abbrev pub PlainIn : Dir → Bytes → Type 0
  PlainIn dir key = dir.txt.file ≡ some (trim_space key ++ b'\n' ∷ [])

  set-IsKept :
      (e : Env) (dir : Dir) (new b : Bytes)
      → dir.txt.file ≡ some b
      → ((set_passphrase c k e dir new).0.txt.file ≡ some b)
        ⊎ ((set_passphrase c k e dir new).1 ≡ ok tt)
          × Moved e dir unprotected [] (SealedIn e new (set_passphrase c k e dir new).0)
  unfolding set_passphrase remove_txt
  set-IsKept e dir new b h = elim (Result-cases (load_as c k e dir unprotected [])) [
    | inr (x, bad) ↦ inl (rw (bad, set_passphrase) h)
    | inl (key, fine) ↦
        let w = write_encrypted c k e.faults e.random dir.age key new in
        elim (Result-cases w.1) [
          | inr (x, bad) ↦ inl (rw (fine, set_passphrase, bad) h)
          | inl (u, wrote) ↦ elim (Bool-cases e.removes) [
            | inr stays ↦ inl (rw (fine, wrote, stays, set_passphrase, remove_txt) h)
            | inl goes ↦
                let (_, x, sealed, is) =
                  write_encrypted-ok c k e.faults e.random dir.age key new wrote in
                inr (
                  rw (fine, wrote, goes, set_passphrase, remove_txt) refl,
                  record {
                    key = key;
                    loaded = fine;
                    is_written = (x, sealed, rw (fine, wrote, goes, set_passphrase, remove_txt) is);
                  },
                )
          ]
        ]
  ]

  remove-IsKept :
      (e : Env) (dir : Dir) (old b : Bytes)
      → dir.age.file ≡ some b
      → ((remove_passphrase c k e dir old).0.age.file ≡ some b)
        ⊎ ((remove_passphrase c k e dir old).1 ≡ ok tt)
          × Moved e dir encrypted old (PlainIn (remove_passphrase c k e dir old).0)
  unfolding remove_passphrase remove_age
  remove-IsKept e dir old b h = elim (Result-cases (load_as c k e dir encrypted old)) [
    | inr (x, bad) ↦ inl (rw (bad, remove_passphrase) h)
    | inl (key, fine) ↦
        let w = write_plain e.faults dir.txt key in
        elim (Result-cases w.1) [
          | inr (x, bad) ↦ inl (rw (fine, remove_passphrase, bad) h)
          | inl (u, wrote) ↦ elim (Bool-cases e.removes) [
            | inr stays ↦ inl (rw (fine, wrote, stays, remove_passphrase, remove_age) h)
            | inl goes ↦ inr (
              rw (fine, wrote, goes, remove_passphrase, remove_age) refl,
              record {
                key = key;
                loaded = fine;
                is_written =
                    rw (fine, wrote, goes, remove_passphrase, remove_age)
                      (write_plain-ok c k e.faults dir.txt key wrote);
              },
            )
          ]
        ]
  ]

  change-IsKept :
      (e : Env) (dir : Dir) (old new b : Bytes)
      → dir.age.file ≡ some b
      → IsKept b (change_passphrase c k e dir old new).0.age
  unfolding change_passphrase
  change-IsKept e dir old new b h = elim (Result-cases (load_as c k e dir encrypted old)) [
    | inr (x, bad) ↦ inl (rw (bad, change_passphrase) h)
    | inl (x, fine) ↦
        rw (fine, change_passphrase) (write_encrypted-IsKept e.faults e.random dir.age x new b h)
  ]

  -- Whatever fails, no change of the passphrase loses the identity: ChangePassphrase leaves the
  -- content of identity.age in the file or in its backup. SetPassphrase leaves identity.txt, or it
  -- succeeds, and then identity.age is what age seals to, with the new passphrase, the key that it
  -- read. RemovePassphrase leaves identity.age, or it succeeds, and then identity.txt is the key that
  -- it read, on a line.
  pub changes-IsKept :
      (e : Env) (dir : Dir) (old new b : Bytes)
      → (dir.age.file ≡ some b → IsKept b (change_passphrase c k e dir old new).0.age)
        × (dir.txt.file ≡ some b
            → ((set_passphrase c k e dir new).0.txt.file ≡ some b)
              ⊎ ((set_passphrase c k e dir new).1 ≡ ok tt)
                × Moved e dir unprotected [] (SealedIn e new (set_passphrase c k e dir new).0))
        × (dir.age.file ≡ some b
            → ((remove_passphrase c k e dir old).0.age.file ≡ some b)
              ⊎ ((remove_passphrase c k e dir old).1 ≡ ok tt)
                × Moved e dir encrypted old (PlainIn (remove_passphrase c k e dir old).0))
  changes-IsKept e dir old new b =
      (change-IsKept e dir old new b, set-IsKept e dir new b, remove-IsKept e dir old b)
