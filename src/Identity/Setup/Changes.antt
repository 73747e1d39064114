-- ===== src/Identity/Setup/Changes.antt =====
-- The changes of the passphrase lead to a file with the same key.
use keycell.Identity.{parse}
use keycell.Identity.Forms.{
  encrypted, unprotected, Dir, Scrypt, content_of, detect, decrypted, load_file, load,
  write_encrypted, write_plain,
}
use keycell.Identity.Setup.{
  Env, load_as, remove_txt, remove_age, change_passphrase, set_passphrase, remove_passphrase,
}
use keycell.Identity.Setup.Loads.{
  IsAge, SameKey, detect_encrypted, trimmed-parse, validate_again, validate_line, load-parse,
  load_as-ok, write_encrypted-ok, write_plain-ok,
}
use keycell.Prelude.{
  ◌≡◌, inl, inr, refl, arith, Bool-cases, true, false, none, some, Result-cases, ok, [], ◌∷◌, ◌++◌,
  ℕ,
}
use keycell.Prelude.Bytes.{Bytes, equal}
use keycell.Prelude.Utf8.{trim_space}
use keycell.Vault.File.{Codec}

module _ {I : Type 0} (c : Codec I) (k : Scrypt) (law : IsAge c k) where
  -- A key that stands alone in identity.age is loaded with its passphrase.
  pub load_encrypted :
      (dir : Dir) (pass b e : Bytes) (r : ℕ) (i : I)
      → parse c b ≡ ok i
      → equal pass [] ≡ false
      → k.seal_pass pass r b ≡ some e
      → dir.age.file ≡ some e
      → dir.txt.file ≡ none
      → load c k true dir pass ≡ ok (trim_space b)
  unfolding load detect load_file content_of decrypted equal
  load_encrypted dir pass b e r i p some_pass sealed here alone =
      rw (here, alone, load, some_pass, law.opens pass r b e sealed) (validate_again c k law b i p)

  pub load_plain :
      (dir : Dir) (pass b : Bytes) (i : I)
      → parse c b ≡ ok i
      → dir.txt.file ≡ some (trim_space b ++ b'\n' ∷ [])
      → dir.age.file ≡ none
      → load c k true dir pass ≡ ok (trim_space b)
  unfolding load detect load_file content_of equal
  load_plain dir pass b i p here alone = rw (here, alone, load) (validate_line c k law b i p)

  change-SameKey :
      (e : Env) (dir : Dir) (old new : Bytes)
      → (change_passphrase c k e dir old new).1 ≡ ok tt
      → SameKey c k
          (load c k e.reads dir old)
          (load c k true (change_passphrase c k e dir old new).0 new)
  unfolding change_passphrase
  change-SameKey e dir old new h = elim (Result-cases (load_as c k e dir encrypted old)) [
    | inr (x, bad) ↦ absurd (ground arith)
    | inl (b, fine) ↦
        let (d, was) = load_as-ok c k e dir encrypted old b fine in
        let (i, p) = load-parse c k e.reads dir old b was in
        let (f, here, alone) = detect_encrypted dir d in
        let (some_pass, sealed, is, there) =
          write_encrypted-ok c k e.faults e.random dir.age b new
            (rw (fine, change_passphrase) at h) in
        record {
          key = i;
          first = b;
          second = trim_space b;
          was = was;
          was_key = p;
          is_key = trimmed-parse c k law b i p;
          is =
              rw (fine, change_passphrase)
                (load_encrypted
                  (record dir { age = (write_encrypted c k e.faults e.random dir.age b new).0 }) new
                  b sealed e.random i p some_pass is there alone);
        }
  ]

  set-SameKey :
      (e : Env) (dir : Dir) (pass : Bytes)
      → (set_passphrase c k e dir pass).1 ≡ ok tt
      → SameKey c k (load c k e.reads dir []) (load c k true (set_passphrase c k e dir pass).0 pass)
  unfolding set_passphrase remove_txt
  set-SameKey e dir pass h = elim (Result-cases (load_as c k e dir unprotected [])) [
    | inr (x, bad) ↦ absurd (ground arith)
    | inl (b, fine) ↦
        let w = write_encrypted c k e.faults e.random dir.age b pass in
        elim (Result-cases w.1) [
          | inr (x, bad) ↦ absurd (ground arith)
          | inl (u, wrote) ↦ elim (Bool-cases e.removes) [
            | inr stays ↦ absurd (ground arith)
            | inl goes ↦
                let (d, was) = load_as-ok c k e dir unprotected [] b fine in
                let (i, p) = load-parse c k e.reads dir [] b was in
                let (some_pass, sealed, is, there) =
                  write_encrypted-ok c k e.faults e.random dir.age b pass wrote in
                let end : Dir = record dir { age = w.0; txt = record (dir.txt) { file = none } } in
                record {
                  key = i;
                  first = b;
                  second = trim_space b;
                  was = was;
                  was_key = p;
                  is_key = trimmed-parse c k law b i p;
                  is =
                      rw (fine, wrote, goes, set_passphrase, remove_txt)
                        (load_encrypted end pass b sealed e.random i p some_pass is there refl);
                }
          ]
        ]
  ]

  remove-SameKey :
      (e : Env) (dir : Dir) (pass other : Bytes)
      → (remove_passphrase c k e dir pass).1 ≡ ok tt
      → SameKey c k
          (load c k e.reads dir pass)
          (load c k true (remove_passphrase c k e dir pass).0 other)
  unfolding remove_passphrase remove_age
  remove-SameKey e dir pass other h = elim (Result-cases (load_as c k e dir encrypted pass)) [
    | inr (x, bad) ↦ absurd (ground arith)
    | inl (b, fine) ↦
        let w = write_plain e.faults dir.txt b in
        elim (Result-cases w.1) [
          | inr (x, bad) ↦ absurd (ground arith)
          | inl (u, wrote) ↦ elim (Bool-cases e.removes) [
            | inr stays ↦ absurd (ground arith)
            | inl goes ↦
                let (d, was) = load_as-ok c k e dir encrypted pass b fine in
                let (i, p) = load-parse c k e.reads dir pass b was in
                let end : Dir = record dir { txt = w.0; age = record (dir.age) { file = none } } in
                record {
                  key = i;
                  first = b;
                  second = trim_space b;
                  was = was;
                  was_key = p;
                  is_key = trimmed-parse c k law b i p;
                  is =
                      rw (fine, wrote, goes, remove_passphrase, remove_age)
                        (load_plain end other b i p (write_plain-ok c k e.faults dir.txt b wrote)
                          refl);
                }
          ]
        ]
  ]

  -- With age's documented behaviour: when ChangePassphrase, SetPassphrase or RemovePassphrase
  -- succeeds, Load reads the same key afterwards as before: with the new passphrase after the first
  -- two, and with any after the last.
  pub changes-SameKey :
      (e : Env) (dir : Dir) (old new : Bytes)
      → ((change_passphrase c k e dir old new).1 ≡ ok tt
          → SameKey c k
              (load c k e.reads dir old)
              (load c k true (change_passphrase c k e dir old new).0 new))
        × ((set_passphrase c k e dir new).1 ≡ ok tt
            → SameKey c k
                (load c k e.reads dir [])
                (load c k true (set_passphrase c k e dir new).0 new))
        × ((other : Bytes)
            → (remove_passphrase c k e dir old).1 ≡ ok tt
            → SameKey c k
                (load c k e.reads dir old)
                (load c k true (remove_passphrase c k e dir old).0 other))
  changes-SameKey e dir old new =
      (change-SameKey e dir old new, set-SameKey e dir new, λ other. remove-SameKey e dir old other)
