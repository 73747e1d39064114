-- ===== src/Tests/Setups.antt =====
-- The theorems about the identity files, with a passphrase in front of what it protects.
use keycell.Atomicfile.{Files, Faults, Step, rename, sync_dir}
use keycell.Identity.Forms.{Dir, Scrypt, exists, vault_write}
use keycell.Identity.Setup.{Env, change_passphrase, init}
use keycell.Identity.Setup.Loads.{IsAge}
use keycell.Identity.Setup.Kept.{IsKept, changes-IsKept}
use keycell.Identity.Setup.Works.{Started, init-Started}
use keycell.Identity.Setup.Stuck.{init_stuck}
use keycell.Passphrases.{Desk, passphrase}
use keycell.Passphrases.Asking.{passphrase_asks}
use keycell.Passphrases.Changing.{Changed, passphrase-Changed}
use keycell.Prelude.{
  ℕ, zero, suc, ◌+◌, ◌≡◌, ◌≢◌, ◌≤◌, ◌⊎◌, inl, inr, refl, arith, sym, ap, ◌∙◌, Bool, true, false,
  Bool-cases, [], ◌∷◌, ◌++◌, List, Option, none, some, Result, ok, err, All, if◌then◌else◌,
}
use keycell.Prelude.Bytes.{Bytes, text, equal, equal→eq, equal_refl}
use keycell.Prelude.Utf8.Printable.{IsPrintable}
use keycell.Terminal
use keycell.Tests.Scene.{all_well}
use keycell.Tests.ToyCodec.{toy, toy-IsFaithful, put_bytes, get_bytes, get_bytes-put, parse_key}
use keycell.Vault.File
use keycell.Vault.File.{Opened, plain, no_match, corrupt, write_failed}

unfoldable opened_by : Bytes → Option (Bytes × Bytes) → Opened
opened_by p none = corrupt
opened_by p (some (q, b)) = if equal q p then plain b else no_match

unfoldable pub scrypt : Scrypt
unfolding put_bytes get_bytes opened_by
scrypt = record {
  seal_pass = λ p r b. some (put_bytes p b);
  open_pass = λ p e. opened_by p (get_bytes e);
}

toy-IsAge : IsAge toy scrypt
unfolding toy scrypt opened_by parse_key
toy-IsAge = record { keys = keys; opens = opens }
  where
    keys : (b : Bytes) (i : ℕ) → toy.parse b ≡ some i → IsPrintable b
    keys b i h = elim (Bool-cases (equal b (text "KEY"))) [
      | inl is ↦ rw (equal→eq b (text "KEY") is) (omega arith)
      | inr other ↦ elim (Bool-cases (equal b (text "OTHER"))) [
        | inl is ↦ rw (equal→eq b (text "OTHER") is) (omega arith)
        | inr neither ↦ absurd (cc (rw (other, neither) at h))
      ]
    ]

    opens :
        (p : Bytes) (r : ℕ) (b e : Bytes)
        → scrypt.seal_pass p r b ≡ some e
        → scrypt.open_pass p e ≡ plain b
    opens p r b e h =
        let is : put_bytes p b ≡ e = cc h in
        rw (← is, get_bytes-put p b, opened_by, equal_refl p) refl

abbrev no_files : Files
no_files = record { file = none; backup = none; temp = none }

abbrev nothing : Dir
nothing = record { age = no_files; txt = no_files; vault = no_files }

-- An unprotected identity, and one with the passphrase "old".
abbrev plain_dir : Dir
plain_dir = record nothing { txt = record no_files { file = some (text "KEY\n") } }

abbrev pub age_dir : Dir
age_dir = record nothing {
  age = record no_files { file = some (put_bytes (text "old") (text "KEY")) };
}

abbrev env : Env
env = record {
  reads = true;
  makes_dir = true;
  removes = true;
  generated = some (text "KEY");
  random = 1;
  faults = all_well;
  vault_random = 2;
  vault_faults = all_well;
}

changes-IsKept_example :
    IsKept toy scrypt
      (put_bytes (text "old") (text "KEY"))
      (change_passphrase toy scrypt env age_dir (text "old") (text "new")).0.age
changes-IsKept_example =
    (changes-IsKept toy scrypt env age_dir (text "old") (text "new")
        (put_bytes (text "old") (text "KEY"))).0
      refl

begun : (init toy scrypt env nothing (some (text "pw"))).1 ≡ ok tt
unfolding toy scrypt keycell.Identity.parse keycell.Prelude.Utf8.trim_space init
    keycell.Prelude.Utf8.decode_rune keycell.Atomicfile.write_file File.write
begun = refl

init-Started_example :
    Started toy scrypt (some (text "pw")) (init toy scrypt env nothing (some (text "pw"))).0
init-Started_example =
    init-Started toy scrypt env nothing (some (text "pw")) toy-IsAge toy-IsFaithful begun

-- The rename of the vault fails.
abbrev failing : Env
failing = record env { vault_faults = record all_well { renames = false } }

half_done : (init toy scrypt failing nothing none).1 ≡ err (vault_write (write_failed rename))
unfolding toy scrypt keycell.Identity.parse keycell.Prelude.Utf8.trim_space init
    keycell.Prelude.Utf8.decode_rune keycell.Atomicfile.write_file File.write
half_done = refl

init_stuck_example :
    ((init toy scrypt failing nothing none).0.vault.file ≡ none)
    × ((e : Env) (pass : Option Bytes)
        → e.makes_dir ≡ true
        → init toy scrypt e (init toy scrypt failing nothing none).0 pass
          ≡ ((init toy scrypt failing nothing none).0, err exists))
init_stuck_example =
    init_stuck toy scrypt failing nothing none (write_failed rename) half_done (λ q. cc)

-- A wrong entry, the passphrase, and the new one twice.
abbrev pub entries : ℕ → Result Terminal.Error Bytes
entries zero = ok (text "wrong")
entries (suc zero) = ok (text "new")
entries (suc (suc zero)) = ok (text "new")
entries (suc (suc (suc n))) = ok (text "old")

abbrev desk : Desk
desk = record { dir = age_dir; asked = 0; new_pass = none }

passphrase_asks_example : (passphrase entries toy scrypt (λ n. env) [] false desk).0.asked ≤ 0 + 5
passphrase_asks_example = passphrase_asks entries toy scrypt (λ n. env) [] false desk refl

passed : (passphrase entries toy scrypt (λ n. env) [] false desk).1 ≡ ok tt
unfolding toy scrypt keycell.Identity.parse keycell.Prelude.Utf8.trim_space passphrase
    keycell.Prelude.Utf8.decode_rune Terminal.confirm change_passphrase
    keycell.Atomicfile.write_file
passed = refl

passphrase-Changed_example :
    Changed toy scrypt age_dir (passphrase entries toy scrypt (λ n. env) [] false desk).0.dir
passphrase-Changed_example =
    passphrase-Changed toy scrypt toy-IsAge entries (λ n. env) [] false desk passed
