-- ===== src/Tests/Vaults.antt =====
-- The theorems about the vault file at the scene.
use keycell.Atomicfile.{write_file}
use keycell.Atomicfile.Replace.{Written, write_file_outcomes}
use keycell.Daemon.Session.{unlock}
use keycell.Daemon.Store.Effects.{get-store, get-delete_secret, first_created}
use keycell.Daemon.Store.Valid.{Holds, store-Holds, write-err_file}
use keycell.Daemon.Store.{Secret, Error, not_found, get, store, delete_secret, read, put, write}
use keycell.Prelude.{
  ℕ, [], ◌∷◌, ◌≡◌, ◌↔◌, refl, arith, none, some, true, false, ok, err, ◌⊎◌, inl, inr, Bool-cases,
}
use keycell.Prelude.Bytes.{Bytes, text, equal, equal→eq}
use keycell.Prelude.Maps.{lookup}
use keycell.Tests.Scene.{token, one_secret, all_well, sealed, files, disk, opened}
use keycell.Tests.ToyCodec.{toy, toy-IsFaithful}
use keycell.Vault.File.{Disk}
use keycell.Vault.File
use keycell.Vault.Validate.Rules.{IsValid, validate_secret_iff, validate_secret-IsValid}
use keycell.Vault.Validate.{validate_secret}

abbrev after_store : Disk
after_store = record disk {
  files = (store toy opened disk 50 (text "x") (text "generic") [] (text "v")).0;
}

stored_fine : (store toy opened disk 50 (text "x") (text "generic") [] (text "v")).1 ≡ ok tt
unfolding store delete_secret unlock toy sealed keycell.Identity.parse
    keycell.Prelude.Utf8.trim_space keycell.Prelude.Utf8.decode_rune keycell.Secmem.new File.read
    keycell.Daemon.Store.put keycell.Daemon.Store.remove validate_secret
    keycell.Prelude.Utf8.valid_string File.write write_file lookup
stored_fine = refl

deleted_fine : (delete_secret toy opened disk (text "git/a")).1 ≡ ok tt
unfolding store delete_secret unlock toy sealed keycell.Identity.parse
    keycell.Prelude.Utf8.trim_space keycell.Prelude.Utf8.decode_rune keycell.Secmem.new File.read
    keycell.Daemon.Store.put keycell.Daemon.Store.remove validate_secret
    keycell.Prelude.Utf8.valid_string File.write write_file lookup
deleted_fine = refl

opened_id : opened.id ≡ some 7
unfolding store delete_secret unlock toy sealed keycell.Identity.parse
    keycell.Prelude.Utf8.trim_space keycell.Prelude.Utf8.decode_rune keycell.Secmem.new File.read
    keycell.Daemon.Store.put keycell.Daemon.Store.remove validate_secret
    keycell.Prelude.Utf8.valid_string File.write write_file lookup
opened_id = refl

after_delete : Disk
after_delete = record disk { files = (delete_secret toy opened disk (text "git/a")).0 }

get-store_example :
    get toy opened after_store (text "x")
    ≡ ok (record {
      name = text "x";
      kind = text "generic";
      attributes = [];
      value = text "v";
      created = first_created 50 (get toy opened disk (text "x"));
      updated = 50;
    })
unfolding keycell.Prelude.Bytes.equal
get-store_example =
    get-store toy toy-IsFaithful opened 7 disk after_store 50 (text "x") (text "generic") []
      (text "v") (text "x") opened_id stored_fine (record { files = refl; opens = refl })

get-delete_secret_example : get toy opened after_delete (text "git/a") ≡ err not_found
unfolding after_delete keycell.Prelude.Bytes.equal
get-delete_secret_example =
    get-delete_secret toy toy-IsFaithful opened 7 disk after_delete (text "git/a") (text "git/a")
      opened_id deleted_fine (record { files = refl; opens = refl })

read_scene : read toy disk 7 ≡ ok one_secret
unfolding read toy sealed File.read
read_scene = refl

token-valid : validate_secret (text "git/a") token ≡ ok tt
unfolding validate_secret keycell.Prelude.Utf8.valid_string keycell.Prelude.Utf8.decode_rune
    keycell.Prelude.Utf8.trim_space keycell.Prelude.Bytes.equal
token-valid = refl

one_secret-Holds : Holds toy 7 disk
one_secret-Holds = record {
  content = one_secret;
  opens = read_scene;
  rules = record {
    distinct = (unfold lookup in refl, tt);
    each = (validate_secret-IsValid (text "git/a") token token-valid, tt);
  };
}

store-Holds_example : Holds toy 7 after_store
store-Holds_example =
    store-Holds toy toy-IsFaithful opened 7 disk after_store 50 (text "x") (text "generic") []
      (text "v") opened_id one_secret-Holds stored_fine (record { files = refl; opens = refl })

validate_secret_iff_example :
    (validate_secret (text "git/a") token ≡ ok tt) ↔ IsValid (text "git/a") token
validate_secret_iff_example = validate_secret_iff (text "git/a") token

abbrev shown_token : Secret
shown_token = record {
  name = text "git/a";
  kind = text "generic";
  attributes = (text "host", text "a.b") ∷ [];
  value = [];
  created = 5;
  updated = 6;
}

same_entries :
    (j : Bytes)
    → lookup j ((text "a", token) ∷ (text "b", token) ∷ [])
      ≡ lookup j ((text "b", token) ∷ (text "a", token) ∷ [])
unfolding lookup
same_entries j = elim (Bool-cases (equal (text "a") j)) [
  | inr other ↦ rw other
  | inl same ↦ rw (← equal→eq (text "a") j same) (unfold equal in refl)
]

full_disk :
    (store toy opened
      (record disk { faults = record all_well { writes = false } })
      50
      (text "x")
      (text "generic")
      []
      (text "v")).1
    ≡ err (keycell.Daemon.Store.vault (File.write_failed keycell.Atomicfile.write))
unfolding store unlock toy sealed keycell.Identity.parse keycell.Prelude.Utf8.trim_space
    keycell.Prelude.Utf8.decode_rune keycell.Secmem.new File.read keycell.Daemon.Store.put
    validate_secret keycell.Prelude.Utf8.valid_string File.write write_file lookup
full_disk = refl

write-err_file_example :
    (write toy opened
      (record disk { faults = record all_well { writes = false } })
      (put 50 (text "x") (text "generic") [] (text "v"))).0.file
    ≡ some sealed
unfolding store
write-err_file_example =
    write-err_file toy opened (record disk { faults = record all_well { writes = false } })
      (put 50 (text "x") (text "generic") [] (text "v"))
      (keycell.Daemon.Store.vault (File.write_failed keycell.Atomicfile.write)) full_disk (λ e. cc)
      (λ e. cc)

written_fine : (File.write toy disk 7 one_secret).1 ≡ ok tt
unfolding File.write toy write_file
written_fine = refl

write_file_outcomes_example :
    ((true ≡ false)
      ⊎ ((write_file (record all_well { renames = false }) files (1 ∷ []) true).0.temp ≡ none))
    × Written files (1 ∷ []) (write_file (record all_well { renames = false }) files (1 ∷ []) true)
write_file_outcomes_example =
    write_file_outcomes (record all_well { renames = false }) files (1 ∷ []) refl
