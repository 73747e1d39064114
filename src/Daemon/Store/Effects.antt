-- ===== src/Daemon/Store/Effects.antt =====
-- What Store and Delete do to what Get and List read.
use keycell.Atomicfile.{Files}
use keycell.Daemon.Session.{Session, with_identity}
use keycell.Daemon.Store.{
  Secret, Error, not_found, invalid_argument, vault, to_secret, put, remove, read, find, get, write,
  store, delete_secret,
}
use keycell.Prelude.{
  map_err-eq-ok, ℕ, true, Option, none, some, Result, ok, err, ◌≡◌, arith, if◌then◌else◌,
  Result-cases, Option-cases, inl, inr, ◌∙◌, sym, ap, Bool-cases,
}
use keycell.Prelude.Bytes.{Bytes, equal, equal→eq}
use keycell.Prelude.Maps.{Map, lookup, insert, delete, lookup-insert, lookup-delete}
use keycell.Vault.File
use keycell.Vault.File.RoundTrip.{read-write}
use keycell.Vault.File.{Codec, IsFaithful, Disk}
use keycell.Vault.Model
use keycell.Vault.Model.{Vault, current}
use keycell.Vault.Validate.{validate_name, validate_secret, Invalid}

-- The answer to a lookup.
abbrev pub found : Bytes → Option Model.Secret → Result Error Secret
found n none = err not_found
found n (some x) = ok (record {
  name = n;
  kind = x.kind;
  attributes = x.attributes;
  value = x.value;
  created = x.created;
  updated = x.updated;
})

-- The creation time that a secret keeps, given what Get answered before.
abbrev pub first_created : ℕ → Result Error Secret → ℕ
first_created now (ok old) = old.created
first_created now (err e) = now

-- The disk of a later call: the files are those given, and they open.
pub record Later (fs : Files) (d : Disk) : Type 0 where
  pub files : d.files ≡ fs
  pub opens : d.opens ≡ true

pub put-version :
    (now : ℕ) (n k : Bytes) (a : Map Bytes) (x : Bytes) (v w : Vault)
    → put now n k a x v ≡ ok w
    → w.version ≡ v.version
unfolding put
put-version now n k a x v w h = ground arith

pub remove-version : (n : Bytes) (v w : Vault) → remove n v ≡ ok w → w.version ≡ v.version
unfolding remove
remove-version n v w h = ground arith

module _ {I : Type 0} (c : Codec I) where
  read-current : (d : Disk) (i : I) (v : Vault) → read c d i ≡ ok v → v.version ≡ current
  unfolding read File.read File.decode
  read-current d i v h = ground arith

  -- A write that succeeds: it read a vault, changed it, and wrote the changed one.
  pub record Wrote (i : I) (d : Disk) (modify : Vault → Result Error Vault) (fs : Files)
      : Type 0 where
    pub before : Vault
    pub after : Vault
    pub was_read : read c d i ≡ ok before
    pub changed : modify before ≡ ok after
    pub was_written : (File.write c d i after).1 ≡ ok tt
    pub files_are : fs ≡ (File.write c d i after).0

  pub write-Wrote :
      (s : Session I) (d : Disk) (modify : Vault → Result Error Vault) (i : I)
      → s.id ≡ some i
      → (write c s d modify).1 ≡ ok tt
      → Wrote i d modify (write c s d modify).0
  unfolding write
  write-Wrote s d modify i e h = elim (Result-cases (read c d i)) [
    | inr (x, bad) ↦ absurd (ground arith)
    | inl (v, got) ↦ elim (Result-cases (modify v)) [
      | inr (x, bad) ↦ absurd (ground arith)
      | inl (w, change) ↦ record {
        before = v;
        after = w;
        was_read = got;
        changed = change;
        was_written = map_err-eq-ok vault _ (ground arith);
        files_are = ground arith;
      }
    ]
  ]

module _ {I : Type 0} (c : Codec I) (law : IsFaithful c) where
  -- After a successful write, the next read gives the changed vault.
  pub read-Wrote :
      (i : I) (d : Disk) (modify : Vault → Result Error Vault) (fs : Files) (later : Disk)
      → ((v w : Vault) → modify v ≡ ok w → w.version ≡ v.version)
      → (x : Wrote c i d modify fs) → Later fs later
      → read c later i ≡ ok x.after
  unfolding read
  read-Wrote i d modify fs later same x l = rw (
      read-write c law d i x.after later
        (same x.before x.after x.changed ∙ read-current c d i x.before x.was_read) x.was_written
        (l.files ∙ x.files_are) l.opens)

  pub get-eq :
      (s : Session I) (d : Disk) (i : I) (v : Vault) (n : Bytes)
      → s.id ≡ some i
      → read c d i ≡ ok v
      → validate_name n ≡ ok tt
      → get c s d n ≡ found n (lookup n v.secrets)
  unfolding get with_identity find to_secret
  get-eq s d i v n e r valid = elim (Option-cases (lookup n v.secrets)) [
    | inl none_there ↦ rw (e, with_identity, valid, r) (ground (arith, none_there))
    | inr (x, there) ↦ rw (e, with_identity, valid, r) (ground (arith, there))
  ]

  pub get-invalid :
      (s : Session I) (d : Disk) (i : I) (n : Bytes) {e : Invalid}
      → s.id ≡ some i
      → validate_name n ≡ err e
      → get c s d n ≡ err (invalid_argument e)
  unfolding get with_identity find
  get-invalid s d i n h bad = rw (h, with_identity, bad)

  -- Two disks that hold vaults which agree on a name give it the same answer.
  get-congr :
      (s : Session I) (d e : Disk) (i : I) (v w : Vault) (n : Bytes)
      → s.id ≡ some i
      → read c d i ≡ ok v
      → read c e i ≡ ok w
      → lookup n w.secrets ≡ lookup n v.secrets
      → get c s e n ≡ get c s d n
  get-congr s d e i v w n h rv rw' same = elim (Result-cases (validate_name n)) [
    | inr (x, bad) ↦ get-invalid s e i n h bad ∙ sym (get-invalid s d i n h bad)
    | inl (tt, fine) ↦
        get-eq s e i w n h rw' fine ∙ ap (found n) same ∙ sym (get-eq s d i v n h rv fine)
  ]

  put-changes :
      (now : ℕ) (n k : Bytes) (a : Map Bytes) (x : Bytes) (v w : Vault)
      → put now n k a x v ≡ ok w
      → (validate_name n ≡ ok tt)
        × (w.secrets
            ≡ insert n
                (record {
                  kind = k;
                  value = x;
                  attributes = a;
                  created = first_created now (found n (lookup n v.secrets));
                  updated = now;
                })
                v.secrets)
  unfolding put validate_secret
  put-changes now n k a x v w h = elim (Option-cases (lookup n v.secrets)) [
    | inl e ↦ ground arith
    | inr (old, e) ↦ ground arith
  ]

  remove-changes :
      (n : Bytes) (v w : Vault)
      → remove n v ≡ ok w
      → (validate_name n ≡ ok tt) × (w.secrets ≡ delete n v.secrets)
  unfolding remove
  remove-changes n v w h = ground arith

  -- With a codec that reads what it writes: after a Store that succeeds, Get answers its name
  -- with the stored kind, attributes and value, with the creation time that the secret had before,
  -- if it was there, and with the time of the call otherwise; and it answers every other name as
  -- before the call.
  pub get-store :
      (s : Session I) (i : I) (d later : Disk) (now : ℕ) (n k : Bytes) (a : Map Bytes) (x j : Bytes)
      → s.id ≡ some i
      → (store c s d now n k a x).1 ≡ ok tt
      → Later (store c s d now n k a x).0 later
      → get c s later j ≡ (
          if equal n j
          then ok (record {
            name = n;
            kind = k;
            attributes = a;
            value = x;
            created = first_created now (get c s d n);
            updated = now;
          })
          else get c s d j)
  unfolding store
  get-store s i d later now n k a x j h done l =
      let wrote = write-Wrote c s d (put now n k a x) i h done in
      let v = wrote.before in
      let w = wrote.after in
      let r = read-Wrote i d _ _ later (put-version now n k a x) wrote l in
      let (valid, new) = put-changes now n k a x v w wrote.changed in
      let fresh : Model.Secret = record {
        kind = k;
        value = x;
        attributes = a;
        created = first_created now (found n (lookup n v.secrets));
        updated = now;
      } in
      let hit = lookup-insert n j fresh v.secrets in
      elim (Bool-cases (equal n j)) [
        | inr other ↦
            rw other (
              get-congr s d later i v w j h wrote.was_read r
                (ap (lookup j) new ∙ (rw other at hit)))
        | inl same ↦
            let e : n ≡ j = equal→eq n j same in
            rw same (
              rw (get-eq s d i v n h wrote.was_read valid) (
                get-eq s later i w j h r (rw (← e) valid)
                ∙ ap (found j) (ap (lookup j) new ∙ (rw same at hit))
                ∙ rw e))
      ]

  -- With a codec that reads what it writes: after a Delete that succeeds, Get answers its name
  -- with ErrNotFound, and every other name as before the call.
  pub get-delete_secret :
      (s : Session I) (i : I) (d later : Disk) (n j : Bytes)
      → s.id ≡ some i
      → (delete_secret c s d n).1 ≡ ok tt
      → Later (delete_secret c s d n).0 later
      → get c s later j ≡ (if equal n j then err not_found else get c s d j)
  unfolding delete_secret
  get-delete_secret s i d later n j h done l =
      let wrote = write-Wrote c s d (remove n) i h done in
      let v = wrote.before in
      let w = wrote.after in
      let r = read-Wrote i d _ _ later (remove-version n) wrote l in
      let (valid, new) = remove-changes n v w wrote.changed in
      let hit = lookup-delete n j v.secrets in
      elim (Bool-cases (equal n j)) [
        | inr other ↦
            rw other (
              get-congr s d later i v w j h wrote.was_read r
                (ap (lookup j) new ∙ (rw other at hit)))
        | inl same ↦ rw same (
            get-eq s later i w j h r (rw (← equal→eq n j same) valid)
            ∙ ap (found j) (ap (lookup j) new ∙ (rw same at hit)))
      ]
