-- ===== src/Identity/Setup/Loads.antt =====
-- What Detect, Load and the two writes give, for the proofs about the setup.
use keycell.Atomicfile.{Files, Faults}
use keycell.Atomicfile.Replace.{write_file-ok}
use keycell.Identity.{parse}
use keycell.Identity.Forms.{
  Form, encrypted, unprotected, absent, Dir, Failure, Scrypt, Content, missing, broken, found,
  content_of, detect, validate, decrypted, load_file, load, write_encrypted, write_plain,
  plain_file, encrypted_file,
}
use keycell.Identity.Setup.{Env, same_form, load_as}
use keycell.Prelude.{
  ◌≡◌, inl, inr, refl, ap, ◌∙◌, arith, Bool-cases, true, false, Option, Option-cases, none, some,
  Result, Result-cases, ok, [], ◌∷◌, ◌++◌, ℕ, Bool,
}
use keycell.Prelude.Bytes.{Bytes, equal}
use keycell.Prelude.Utf8.{trim_space}
use keycell.Prelude.Utf8.Printable.{IsPrintable, trim_space_printable, trim_space_newline}
use keycell.Vault.File.{Codec, plain, no_match, corrupt, Opened}

-- age's documented behaviour: a secret key is printable ASCII, and a passphrase opens what it
-- sealed.
pub record IsAge {I : Type 0} (c : Codec I) (k : Scrypt) : Type 0 where
  pub keys : (b : Bytes) (i : I) → c.parse b ≡ some i → IsPrintable b
  pub opens :
      (p : Bytes) (r : ℕ) (b e : Bytes) → k.seal_pass p r b ≡ some e → k.open_pass p e ≡ plain b

pub detect_encrypted :
    (dir : Dir)
    → detect dir ≡ ok encrypted
    → (e : Bytes) × (dir.age.file ≡ some e) × (dir.txt.file ≡ none)
unfolding detect
detect_encrypted dir h = by_files dir.age.file dir.txt.file refl refl
  where
    by_files :
        (a t : Option Bytes)
        → dir.age.file ≡ a
        → dir.txt.file ≡ t
        → (e : Bytes) × (dir.age.file ≡ some e) × (dir.txt.file ≡ none)
    by_files none t p q = absurd (ground arith)
    by_files (some e) none p q = (e, p, q)
    by_files (some e) (some x) p q = absurd (ground arith)

detect_plain :
    (dir : Dir)
    → detect dir ≡ ok unprotected
    → (x : Bytes) × (dir.txt.file ≡ some x) × (dir.age.file ≡ none)
unfolding detect
detect_plain dir h = by_files dir.age.file dir.txt.file refl refl
  where
    by_files :
        (a t : Option Bytes)
        → dir.age.file ≡ a
        → dir.txt.file ≡ t
        → (x : Bytes) × (dir.txt.file ≡ some x) × (dir.age.file ≡ none)
    by_files none none p q = absurd (ground arith)
    by_files none (some x) p q = (x, q, p)
    by_files (some e) none p q = absurd (ground arith)
    by_files (some e) (some x) p q = absurd (ground arith)

same_form-eq : (f g : Form) → same_form f g ≡ true → f ≡ g
unfolding same_form
same_form-eq encrypted encrypted h = refl
same_form-eq unprotected unprotected h = refl
same_form-eq absent absent h = refl
same_form-eq encrypted unprotected h = absurd (cc)
same_form-eq encrypted absent h = absurd (cc)
same_form-eq unprotected encrypted h = absurd (cc)
same_form-eq unprotected absent h = absurd (cc)
same_form-eq absent encrypted h = absurd (cc)
same_form-eq absent unprotected h = absurd (cc)

module _ {I : Type 0} (c : Codec I) (k : Scrypt) where
  -- One identity, read by two loads.
  pub record SameKey (before after : Result Failure Bytes) : Type 0 where
    pub key : I
    pub first : Bytes
    pub second : Bytes
    pub was : before ≡ ok first
    pub is : after ≡ ok second
    pub was_key : parse c first ≡ ok key
    pub is_key : parse c second ≡ ok key

  parse-eq : (b : Bytes) (i : I) → parse c b ≡ ok i → c.parse (trim_space b) ≡ some i
  unfolding parse
  parse-eq b i h = elim (Option-cases (c.parse (trim_space b))) [
    | inl e ↦ absurd (ground arith)
    | inr (j, e) ↦ ground arith
  ]

  validate-parse : (x b : Bytes) → validate c k x ≡ ok b → (i : I) × (parse c b ≡ ok i)
  unfolding validate
  validate-parse x b h = elim (Result-cases (parse c (trim_space x))) [
    | inr (e, bad) ↦ absurd (ground arith)
    | inl (i, fine) ↦ let same : b ≡ trim_space x = ground arith in (i, rw same fine)
  ]

  decrypted-parse : (o : Opened) (b : Bytes) → decrypted c k o ≡ ok b → (i : I) × (parse c b ≡ ok i)
  unfolding decrypted
  decrypted-parse (plain x) b h = validate-parse x b h
  decrypted-parse no_match b h = absurd (cc)
  decrypted-parse corrupt b h = absurd (cc)

  load_file-parse :
      (base : Bytes) (x : Content) (pass b : Bytes)
      → load_file c k base x pass ≡ ok b
      → (i : I) × (parse c b ≡ ok i)
  unfolding load_file decrypted
  load_file-parse base missing pass b h = absurd (ground arith)
  load_file-parse base broken pass b h = absurd (ground arith)
  load_file-parse base (found x) pass b h = elim (Bool-cases (equal base plain_file)) [
    | inl txt ↦ validate-parse x b (rw (txt, load_file) at h)
    | inr not_txt ↦ elim (Bool-cases (equal base encrypted_file)) [
      | inl age ↦ elim (Bool-cases (equal pass [])) [
        | inl empty ↦ absurd (ground arith)
        | inr some_pass ↦
            decrypted-parse (k.open_pass pass x) b (rw (not_txt, age, some_pass, load_file) at h)
      ]
      | inr other ↦ absurd (ground arith)
    ]
  ]

  pub load-parse :
      (reads : Bool) (dir : Dir) (pass b : Bytes)
      → load c k reads dir pass ≡ ok b
      → (i : I) × (parse c b ≡ ok i)
  unfolding load
  load-parse reads dir pass b h = elim (Result-cases (detect dir)) [
    | inr (e, bad) ↦ absurd (ground arith)
    | inl (unprotected, d) ↦
        load_file-parse plain_file (content_of reads dir.txt.file) pass b (rw (d, load) at h)
    | inl (encrypted, d) ↦
        load_file-parse encrypted_file (content_of reads dir.age.file) pass b (rw (d, load) at h)
    | inl (absent, d) ↦ absurd (ground arith)
  ]

  pub load_as-ok :
      (e : Env) (dir : Dir) (want : Form) (pass b : Bytes)
      → load_as c k e dir want pass ≡ ok b
      → (detect dir ≡ ok want) × (load c k e.reads dir pass ≡ ok b)
  unfolding load_as
  load_as-ok e dir want pass b h = elim (Result-cases (detect dir)) [
    | inr (x, bad) ↦ absurd (ground arith)
    | inl (form, d) ↦ elim (Bool-cases (same_form form want)) [
      | inr other ↦ absurd (ground arith)
      | inl same ↦ (d ∙ ap ok (same_form-eq form want same), ground arith)
    ]
  ]

  -- What WriteEncrypted leaves when it succeeds.
  pub write_encrypted-ok :
      (f : Faults) (r : ℕ) (fs : Files) (b pass : Bytes)
      → (write_encrypted c k f r fs b pass).1 ≡ ok tt
      → (equal pass [] ≡ false)
        × (e : Bytes) × (k.seal_pass pass r b ≡ some e)
        × ((write_encrypted c k f r fs b pass).0.file ≡ some e)
  unfolding write_encrypted
  write_encrypted-ok f r fs b pass h = elim (Bool-cases (equal pass [])) [
    | inl empty ↦ absurd (ground arith)
    | inr some_pass ↦ elim (Option-cases (k.seal_pass pass r b)) [
      | inl bad ↦ absurd (ground arith)
      | inr (e, sealed) ↦ (some_pass, e, sealed, ground (arith, write_file-ok f fs e))
    ]
  ]

  pub write_plain-ok :
      (f : Faults) (fs : Files) (b : Bytes)
      → (write_plain f fs b).1 ≡ ok tt
      → (write_plain f fs b).0.file ≡ some (trim_space b ++ b'\n' ∷ [])
  unfolding write_plain
  write_plain-ok f fs b h = ground (arith, write_file-ok f fs (trim_space b ++ b'\n' ∷ []))

  module _ (law : IsAge c k) where
    pub trimmed-parse : (b : Bytes) (i : I) → parse c b ≡ ok i → parse c (trim_space b) ≡ ok i
    unfolding parse
    trimmed-parse b i h =
        let p = parse-eq b i h in
        let same = trim_space_printable (trim_space b) (law.keys (trim_space b) i p) in
        rw (same, p, parse) refl

    -- A key that was loaded and written again is read back.
    pub validate_again : (b : Bytes) (i : I) → parse c b ≡ ok i → validate c k b ≡ ok (trim_space b)
    unfolding validate
    validate_again b i h = rw (trimmed-parse b i h, validate) refl

    pub validate_line :
        (b : Bytes) (i : I)
        → parse c b ≡ ok i
        → validate c k (trim_space b ++ b'\n' ∷ []) ≡ ok (trim_space b)
    unfolding validate
    validate_line b i h =
        let same = trim_space_newline (trim_space b) (law.keys (trim_space b) i (parse-eq b i h)) in
        rw (same, trimmed-parse b i h, validate) (ap ok same)
