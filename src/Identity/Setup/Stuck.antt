-- ===== src/Identity/Setup/Stuck.antt =====
-- What Init leaves behind when its last write fails.
use keycell.Atomicfile.{Files, Faults, sync_dir, write_file, Step}
use keycell.Identity.Forms.{Dir, exists, vault_write, Scrypt, detect, write_encrypted, write_plain}
use keycell.Identity.Setup.{Env, is_set_up, write_identity, vault_disk, write_vault, fill, init}
use keycell.Identity.Setup.Loads.{write_encrypted-ok, write_plain-ok}
use keycell.Prelude.{
  ◌≡◌, ◌≢◌, inl, inr, refl, ap, ◌∙◌, arith, true, Option, Option-cases, none, some, Result-cases,
  map_err-eq-err, ok, err, [], ◌∷◌, ◌++◌,
}
use keycell.Prelude.Bytes.{Bytes}
use keycell.Prelude.Utf8.{trim_space}
use keycell.Vault.File
use keycell.Vault.File.{Codec, IsFaithful, Disk, write_failed}
use keycell.Vault.Model
use keycell.Identity.Setup.Start.{
  Course, Filling, refused, filled, early, late, init-Course, fill-Filling,
}

-- A write that fails before the sync of the directory leaves no file where there was none.
write_file-none :
    (k : Faults) (fs : Files) (d : Bytes) (y : Step)
    → fs.file ≡ none
    → (write_file k fs d true).1 ≡ err y
    → y ≢ sync_dir
    → (write_file k fs d true).0.file ≡ none
unfolding write_file
write_file-none k fs d y no_file bad other = ground arith

write-none :
    {I : Type 0} (c : Codec I) (d : Disk) (i : I) (v : Model.Vault) (x : File.Error)
    → d.files.file ≡ none
    → (File.write c d i v).1 ≡ err x
    → x ≢ write_failed sync_dir
    → (File.write c d i v).0.file ≡ none
unfolding File.write File.encode
write-none c d i v x no_file bad other = elim (Result-cases (File.encode c v)) [
  | inr (y, q) ↦ rw (q, File.write) no_file
  | inl (b, q) ↦ elim (Option-cases (c.seal i d.random b)) [
    | inl r ↦ rw (q, r, File.write) no_file
    | inr (e, r) ↦
        let (s, is, same) =
          map_err-eq-err write_failed (write_file d.faults d.files e true).1
            (rw (q, r, File.write) at bad) in
        rw (q, r, File.write)
          (write_file-none d.faults d.files e s no_file is (λ t. other (same ∙ ap write_failed t)))
  ]
]

module _ {I : Type 0} (c : Codec I) (k : Scrypt) where
  write_identity-vault :
      (e : Env) (dir : Dir) (pass : Option Bytes) (b : Bytes)
      → (write_identity c k e dir pass b).0.vault ≡ dir.vault
  unfolding write_identity
  write_identity-vault e dir none b = refl
  write_identity-vault e dir (some pass) b = refl

  -- A failed write of the empty vault leaves no vault where there was none.
  write_vault-none :
      (e : Env) (dir : Dir) (i : I) (x : File.Error)
      → dir.vault.file ≡ none
      → (write_vault c k e dir i).1 ≡ err (vault_write x)
      → x ≢ write_failed sync_dir
      → (write_vault c k e dir i).0.vault.file ≡ none
  unfolding write_vault
  write_vault-none e dir i x none_yet h s =
      let d = vault_disk c k e dir in
      let (y, bad, same) = map_err-eq-err vault_write (File.write c d i Model.new).1 h in
      write-none c d i Model.new x none_yet (cc) s

  -- With an identity file there, Init refuses.
  init_again :
      (e : Env) (dir : Dir) (pass : Option Bytes)
      → e.makes_dir ≡ true
      → is_set_up c k dir ≡ true
      → init c k e dir pass ≡ (dir, err exists)
  unfolding init
  init_again e dir pass made there = rw (made, there, init) refl

  is_set_up-age : (dir : Dir) (b : Bytes) → dir.age.file ≡ some b → is_set_up c k dir ≡ true
  unfolding is_set_up detect
  is_set_up-age dir b h = ground arith

  is_set_up-txt : (dir : Dir) (b : Bytes) → dir.txt.file ≡ some b → is_set_up c k dir ≡ true
  unfolding is_set_up detect
  is_set_up-txt dir b h = ground arith

  written-set_up :
      (e : Env) (dir : Dir) (pass : Option Bytes) (b : Bytes) (v : Files)
      → (write_identity c k e dir pass b).1 ≡ ok tt
      → is_set_up c k (record ((write_identity c k e dir pass b).0) { vault = v }) ≡ true
  unfolding write_identity is_set_up detect
  written-set_up e dir none b v h =
      let there = write_plain-ok c k e.faults dir.txt b h in
      is_set_up-txt (record dir { txt = (write_plain e.faults dir.txt b).0; vault = v })
        (trim_space b ++ b'\n' ∷ []) there
  written-set_up e dir (some pass) b v h =
      let (some_pass, sealed, is, there) =
        write_encrypted-ok c k e.faults e.random dir.age b pass h in
      is_set_up-age
        (record dir { age = (write_encrypted c k e.faults e.random dir.age b pass).0; vault = v })
        sealed there

  -- When Init fails at its last step, the write of the vault, other than at the sync of the
  -- directory, it leaves an identity without a vault, and every later Init refuses the directory.
  pub init_stuck :
      (e : Env) (dir : Dir) (pass : Option Bytes) (x : File.Error)
      → (init c k e dir pass).1 ≡ err (vault_write x)
      → x ≢ write_failed sync_dir
      → ((init c k e dir pass).0.vault.file ≡ none)
        × ((e' : Env) (pass' : Option Bytes)
            → e'.makes_dir ≡ true
            → init c k e' (init c k e dir pass).0 pass' ≡ ((init c k e dir pass).0, err exists))
  unfolding write_vault
  init_stuck e dir pass x h s = course (init-Course c k e dir pass)
    where
      Stuck : Dir → Type 0
      Stuck after =
          (after.vault.file ≡ none)
          × ((e' : Env) (pass' : Option Bytes)
              → e'.makes_dir ≡ true
              → init c k e' after pass' ≡ (after, err exists))

      filling :
          (b : Bytes)
          → Filling c k e dir pass b
          → (dir.age.file ≡ none) × (dir.txt.file ≡ none) × (dir.vault.file ≡ none)
          → (fill c k e dir pass b).1 ≡ err (vault_write x)
          → Stuck (fill c k e dir pass b).0
      filling b (early y other bad) empty f = absurd (other x cc)
      filling b (late i p wrote is) (no_age, no_txt, no_vault) f =
          let half = (write_identity c k e dir pass b).0 in
          let none_yet : half.vault.file ≡ none =
            ap (λ fs. fs.file) (write_identity-vault e dir pass b) ∙ no_vault in
          rw is (
            write_vault-none e half i x none_yet (rw is at f) s,
            λ e' pass' made.
                init_again e' (write_vault c k e half i).0 pass' made
                  (written-set_up e dir pass b (write_vault c k e half i).0.vault wrote),
          )

      course : Course c k e dir pass → Stuck (init c k e dir pass).0
      course (refused y other is) = absurd (other x cc)
      course (filled b is empty) =
          rw is (filling b (fill-Filling c k e dir pass b) empty (rw is at h))
