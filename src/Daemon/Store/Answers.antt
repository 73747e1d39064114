-- ===== src/Daemon/Store/Answers.antt =====
-- The closures of Store and Delete on a vault that has the secrets of a view.
use keycell.Daemon.Store.{put, remove, invalid_argument, not_found, delete, insert, Invalid}
use keycell.Daemon.Store.Replay.{
  store_op, delete_op, View, view_step, stored, update, created_of, deleted, stored_secrets,
}
use keycell.Prelude.{ℕ, true, none, some, ok, err, ◌≡◌, refl, ◌∙◌}
use keycell.Prelude.Bytes.{Bytes}
use keycell.Prelude.Maps.{Map, lookup, lookup-insert, lookup-delete}
use keycell.Vault.Model
use keycell.Vault.Model.{Vault}
use keycell.Vault.Validate.{validate_name, validate_secret}

-- What the closure of Store does to the map.
abbrev pub put_vault : ℕ → Bytes → Bytes → Map Bytes → Bytes → Vault → Vault
put_vault now n k attrs x v =
    let created : ℕ = elim (lookup n v.secrets) [ none ↦ now | some old ↦ old.created ] in
    record v {
      secrets =
          insert n
            (record { kind = k; value = x; attributes = attrs; created = created; updated = now })
            v.secrets;
    }

abbrev pub sent : ℕ → Bytes → Map Bytes → Bytes → Model.Secret
sent now k attrs x = record {
  kind = k;
  value = x;
  attributes = attrs;
  created = now;
  updated = now;
}

module _ (now : ℕ) (n k : Bytes) (attrs : Map Bytes) (x : Bytes) (v : Vault) where
  pub put-err :
      (e : Invalid)
      → validate_secret n (sent now k attrs x) ≡ err e
      → put now n k attrs x v ≡ err (invalid_argument e)
  unfolding put
  put-err e bad = rw (bad, put) refl

  pub put-ok :
      {u : Unit {0}}
      → validate_secret n (sent now k attrs x) ≡ ok u
      → put now n k attrs x v ≡ ok (put_vault now n k attrs x v)
  unfolding put
  put-ok fine = rw (fine, put) refl

  pub put-agrees :
      (a : View)
      → ((j : Bytes) → lookup j v.secrets ≡ a.secrets j)
      → (j : Bytes)
      → lookup j (put_vault now n k attrs x v).secrets
        ≡ stored_secrets now n (sent now k attrs x) a j
  unfolding stored_secrets update created_of
  put-agrees a h j = lookup-insert n j _ v.secrets ∙ rw (h n, h j) refl

module _ (n : Bytes) (v : Vault) where
  pub remove-err : (e : Invalid) → validate_name n ≡ err e → remove n v ≡ err (invalid_argument e)
  unfolding remove
  remove-err e bad = rw (bad, remove) refl

  pub remove-none :
      {u : Unit {0}}
      → validate_name n ≡ ok u
      → lookup n v.secrets ≡ none
      → remove n v ≡ err not_found
  unfolding remove
  remove-none fine gone = rw (fine, remove, gone) refl

  pub remove-ok :
      (old : Model.Secret) {u : Unit {0}}
      → validate_name n ≡ ok u
      → lookup n v.secrets ≡ some old
      → remove n v ≡ ok (record v { secrets = delete n v.secrets })
  unfolding remove
  remove-ok old fine there = rw (fine, remove, there) refl

  pub remove-agrees :
      (a : View)
      → ((j : Bytes) → lookup j v.secrets ≡ a.secrets j)
      → (j : Bytes) → lookup j (delete n v.secrets) ≡ update n none a.secrets j
  unfolding update
  remove-agrees a h j = lookup-delete n j v.secrets ∙ rw (h j) refl

pub ask_store :
    (now r : ℕ) (n k : Bytes) (attrs : Map Bytes) (x : Bytes) (a : View)
    → a.is_open ≡ true
    → view_step a (store_op now r n k attrs x) ≡ stored now n (sent now k attrs x) a
unfolding view_step
ask_store now r n k attrs x a opened = simp opened

pub ask_delete :
    (r : ℕ) (n : Bytes) (a : View) → a.is_open ≡ true → view_step a (delete_op r n) ≡ deleted n a
unfolding view_step
ask_delete r n a opened = simp opened
