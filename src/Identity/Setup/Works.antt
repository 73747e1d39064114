-- ===== src/Identity/Setup/Works.antt =====
-- What Init leaves behind when it succeeds.
use keycell.Atomicfile.{Files}
use keycell.Identity.{parse}
use keycell.Identity.Forms.{Dir, vault_write, Scrypt, load, write_encrypted, write_plain}
use keycell.Identity.Setup.{Env, write_identity, vault_disk, write_vault, fill, init}
use keycell.Identity.Setup.Changes.{load_encrypted, load_plain}
use keycell.Identity.Setup.Loads.{IsAge, trimmed-parse, write_encrypted-ok, write_plain-ok}
use keycell.Prelude.{◌≡◌, refl, true, Option, none, some, map_err-eq-ok, ok, []}
use keycell.Prelude.Bytes.{Bytes}
use keycell.Prelude.Utf8.{trim_space}
use keycell.Vault.File
use keycell.Vault.File.{Codec, IsFaithful, Disk, write_failed}
use keycell.Vault.File.RoundTrip.{read-write}
use keycell.Vault.Model
use keycell.Identity.Setup.Start.{
  Course, Filling, refused, filled, early, late, init-Course, fill-Filling,
}

-- The passphrase that opens what Init writes: any, for a nil one.
abbrev pub given : Option Bytes → Bytes
given none = []
given (some pass) = pass

module _ {I : Type 0} (c : Codec I) (k : Scrypt) where
  -- A directory with a key and a vault that this key opens.
  pub record Started (pass : Option Bytes) (dir : Dir) : Type 0 where
    pub key : I
    pub encoded : Bytes
    pub loads : load c k true dir (given pass) ≡ ok encoded
    pub parses : parse c encoded ≡ ok key
    pub opens : (d : Disk) → d.files ≡ dir.vault → d.opens ≡ true → File.read c d key ≡ ok Model.new

  written_key :
      (e : Env) (dir : Dir) (pass : Option Bytes) (b : Bytes) (i : I) (v : Files)
      → IsAge c k
      → parse c b ≡ ok i
      → dir.age.file ≡ none
      → dir.txt.file ≡ none
      → (write_identity c k e dir pass b).1 ≡ ok tt
      → load c k true (record ((write_identity c k e dir pass b).0) { vault = v }) (given pass)
        ≡ ok (trim_space b)
  unfolding write_identity
  written_key e dir none b i v law p no_age no_txt h =
      load_plain c k law (record dir { txt = (write_plain e.faults dir.txt b).0; vault = v }) [] b i
        p (write_plain-ok c k e.faults dir.txt b h) no_age
  written_key e dir (some pass) b i v law p no_age no_txt h =
      let (some_pass, sealed, is, there) =
        write_encrypted-ok c k e.faults e.random dir.age b pass h in
      load_encrypted c k law
        (record dir { age = (write_encrypted c k e.faults e.random dir.age b pass).0; vault = v })
        pass b sealed e.random i p some_pass is there no_txt

  -- With age's documented behaviour and a codec that reads what it writes: an Init that succeeds
  -- leaves a directory where Load reads a key, with the passphrase that was given, and where the
  -- vault opens with that key and is empty.
  pub init-Started :
      (e : Env) (dir : Dir) (pass : Option Bytes)
      → IsAge c k
      → IsFaithful c
      → (init c k e dir pass).1 ≡ ok tt
      → Started pass (init c k e dir pass).0
  unfolding init fill write_vault
  init-Started e dir pass law codec h = course (init-Course c k e dir pass)
    where
      filling :
          (b : Bytes)
          → Filling c k e dir pass b
          → (dir.age.file ≡ none) × (dir.txt.file ≡ none) × (dir.vault.file ≡ none)
          → (fill c k e dir pass b).1 ≡ ok tt
          → Started pass (fill c k e dir pass b).0
      filling b (early x other bad) empty f = absurd (cc)
      filling b (late i p wrote is) (no_age, no_txt, _) f =
          let half = (write_identity c k e dir pass b).0 in
          let r = File.write c (vault_disk c k e half) i Model.new in
          let done : r.1 ≡ ok tt = map_err-eq-ok vault_write r.1 (rw is at f) in
          rw is (record {
            key = i;
            encoded = trim_space b;
            parses = trimmed-parse c k law b i p;
            loads = written_key e dir pass b i r.0 law p no_age no_txt wrote;
            opens =
                λ d fs o. read-write c codec (vault_disk c k e half) i Model.new d refl done fs o;
          })

      course : Course c k e dir pass → Started pass (init c k e dir pass).0
      course (refused x other is) = absurd (cc)
      course (filled b is empty) =
          rw is (filling b (fill-Filling c k e dir pass b) empty (rw is at h))
