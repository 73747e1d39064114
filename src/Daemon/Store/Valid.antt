-- ===== src/Daemon/Store/Valid.antt =====
-- The invariant of the vault, and what an operation that fails leaves behind.
use keycell.Atomicfile.{rename, sync_dir}
use keycell.Daemon.Session.Invariant.{IsLocked}
use keycell.Daemon.Session.{Session, with_identity}
use keycell.Daemon.Store.Effects.{Later, write-Wrote, read-Wrote, put-version, remove-version}
use keycell.Daemon.Store.{
  Filter, Error, locked, vault, put, remove, read, get, list, write, store, delete_secret,
}
use keycell.Prelude.{
  ℕ, none, some, Result, ok, err, ◌≡◌, ◌≢◌, arith, ◌>>=◌, Result-cases, Option-cases, inl, inr, All,
}
use keycell.Prelude.Bytes.{Bytes}
use keycell.Prelude.Maps.{
  Map, lookup, insert, delete, IsMap, insert-IsMap, delete-IsMap, All-insert, All-delete,
}
use keycell.Vault.File
use keycell.Vault.File.RoundTrip.{write-err}
use keycell.Vault.File.{Codec, IsFaithful, Disk, write_failed}
use keycell.Vault.Model
use keycell.Vault.Model.{Vault}
use keycell.Vault.Validate.Rules.{IsValid, validate_secret-IsValid}
use keycell.Vault.Validate.{validate_secret}

abbrev pub IsStored : Bytes × Model.Secret → Type 0
IsStored e = IsValid e.0 e.1

-- Distinct names, and every secret within the rules.
pub record IsVault (v : Vault) : Type 0 where
  pub distinct : IsMap v.secrets
  pub each : All IsStored v.secrets

-- The rules do not look at the times.
IsValid-times :
    (n k : Bytes) (a : Map Bytes) (x : Bytes) (t u t' u' : ℕ)
    → IsValid n (record { kind = k; value = x; attributes = a; created = t; updated = u })
    → IsValid n (record { kind = k; value = x; attributes = a; created = t'; updated = u' })
IsValid-times n k a x t u t' u' h = record {
  named = h.named;
  kinded = h.kinded;
  attributed = h.attributed;
  sized = h.sized;
}

put-IsVault :
    (now : ℕ) (n k : Bytes) (a : Map Bytes) (x : Bytes) (v w : Vault)
    → put now n k a x v ≡ ok w
    → IsVault v
    → IsVault w
unfolding put
put-IsVault now n k a x v w h i =
    let s : Model.Secret = record {
      kind = k;
      value = x;
      attributes = a;
      created = now;
      updated = now;
    } in
    let valid : validate_secret n s ≡ ok tt = ground arith in
    let created : ℕ = elim (lookup n v.secrets) [ none ↦ now | some old ↦ old.created ] in
    let new : Model.Secret = record s { created = created } in
    let e : w ≡ record v { secrets = insert n new v.secrets } = ground arith in
    rw e (record {
      distinct = insert-IsMap n new v.secrets i.distinct;
      each =
          All-insert IsStored n new v.secrets
            (IsValid-times n k a x now now created now (validate_secret-IsValid n s valid)) i.each;
    })

remove-IsVault : (n : Bytes) (v w : Vault) → remove n v ≡ ok w → IsVault v → IsVault w
unfolding remove
remove-IsVault n v w h i =
    let e : w ≡ record v { secrets = delete n v.secrets } = ground arith in
    rw e (record {
      distinct = delete-IsMap n v.secrets i.distinct;
      each = All-delete IsStored n v.secrets i.each;
    })

module _ {I : Type 0} (c : Codec I) where
  -- The files hold a vault within the rules, which the identity opens.
  pub record Holds (i : I) (d : Disk) : Type 0 where
    pub content : Vault
    pub opens : read c d i ≡ ok content
    pub rules : IsVault content

  -- A change of the vault that fails, on any error but that of the last rename and that of the sync
  -- of the directory behind it, leaves the vault file as it was.
  pub write-err_file :
      (s : Session I) (d : Disk) (modify : Vault → Result Error Vault) (e : Error)
      → (write c s d modify).1 ≡ err e
      → e ≢ vault (write_failed rename)
      → e ≢ vault (write_failed sync_dir)
      → (write c s d modify).0.file ≡ d.files.file
  unfolding write
  write-err_file s d modify e h p q = elim (Option-cases s.id) [
    | inl closed ↦ rw (closed, write)
    | inr (i, held) ↦ elim (Result-cases (do v ← read c d i; modify v)) [
      | inr (x, bad) ↦ rw (held, write, bad)
      | inl (w, change) ↦ elim (Result-cases (File.write c d i w).1) [
        | inl (u, fine) ↦ absurd (ground arith)
        | inr (x, bad) ↦
            rw (held, write, change)
              (write-err c d i w x bad (λ a. p (ground arith)) (λ a. q (ground arith)))
      ]
    ]
  ]

  -- While the session is locked, Get, List, Store and Delete answer ErrLocked, whatever their
  -- arguments, and the files stay as they are.
  pub locked_refuses :
      (s : Session I) (d : Disk) (now : ℕ) (n k : Bytes) (a : Map Bytes) (x : Bytes) (f : Filter)
      → IsLocked s
      → (get c s d n ≡ err locked)
        × (list c s d f ≡ err locked)
        × (store c s d now n k a x ≡ (d.files, err locked))
        × (delete_secret c s d n ≡ (d.files, err locked))
  unfolding get list store delete_secret with_identity
  locked_refuses s d now n k a x f h = (
    ground (arith, h.no_id),
    ground (arith, h.no_id),
    ground (arith, h.no_id),
    ground (arith, h.no_id),
  )

module _ {I : Type 0} (c : Codec I) (law : IsFaithful c) where
  -- With a codec that reads what it writes: a Store that succeeds keeps the vault within the
  -- rules, where names are distinct and every secret in the file passes the validation.
  pub store-Holds :
      (s : Session I) (i : I) (d later : Disk) (now : ℕ) (n k : Bytes) (a : Map Bytes) (x : Bytes)
      → s.id ≡ some i
      → Holds c i d
      → (store c s d now n k a x).1 ≡ ok tt
      → Later (store c s d now n k a x).0 later
      → Holds c i later
  unfolding store
  store-Holds s i d later now n k a x h before done l =
      let wrote = write-Wrote c s d (put now n k a x) i h done in
      let same : wrote.before ≡ before.content = ground (arith, wrote.was_read, before.opens) in
      record {
        content = wrote.after;
        opens = read-Wrote c law i d _ _ later (put-version now n k a x) wrote l;
        rules =
            put-IsVault now n k a x wrote.before wrote.after wrote.changed (rw same before.rules);
      }

  -- With a codec that reads what it writes: a Delete that succeeds keeps the vault within the
  -- rules.
  delete_secret-Holds :
      (s : Session I) (i : I) (d later : Disk) (n : Bytes)
      → s.id ≡ some i
      → Holds c i d
      → (delete_secret c s d n).1 ≡ ok tt
      → Later (delete_secret c s d n).0 later
      → Holds c i later
  unfolding delete_secret
  delete_secret-Holds s i d later n h before done l =
      let wrote = write-Wrote c s d (remove n) i h done in
      let same : wrote.before ≡ before.content = ground (arith, wrote.was_read, before.opens) in
      record {
        content = wrote.after;
        opens = read-Wrote c law i d _ _ later (remove-version n) wrote l;
        rules = remove-IsVault n wrote.before wrote.after wrote.changed (rw same before.rules);
      }
