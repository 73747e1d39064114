-- ===== src/Vault/File/RoundTrip.antt =====
-- Reading back what was written, and what a failed write leaves.
use keycell.Vault.File.{
  Codec, IsFaithful, Error, Disk, encode, decode, decrypt, read, write, write_failed,
}
use keycell.Atomicfile.{Files, write_file, rename, sync_dir}
use keycell.Atomicfile.Replace.{write_file-ok, write_file-err}
use keycell.Prelude.{
  ℕ, true, some, ok, err, ◌≡◌, inl, inr, arith, Option-cases, Result-cases, ap, ◌≢◌, ◌∙◌,
}
use keycell.Prelude.Bytes.{Bytes}
use keycell.Vault.Model.{Vault, current}

module _ {Identity : Type 0} (c : Codec Identity) (law : IsFaithful c) where
  -- Decode reads back what Encode wrote, for a vault of the current version.
  pub decode-encode :
      (v : Vault) (b : Bytes) → v.version ≡ current → encode c v ≡ ok b → decode c b ≡ ok v
  unfolding encode decode
  decode-encode v b cur h = ground (arith, law.heads v b, law.reads v b)

  sealed_read :
      (d : Disk) (i : Identity) (v : Vault) (r : ℕ) (b e : Bytes)
      → v.version ≡ current
      → encode c v ≡ ok b
      → c.seal i r b ≡ some e
      → d.files.file ≡ some e
      → d.opens ≡ true
      → read c d i ≡ ok v
  unfolding read
  sealed_read d i v r b e cur h s f o =
      rw (f, o, law.opens i r b e s, decrypt) (decode-encode v b cur h)

  -- What a successful Write has done.
  written :
      (d : Disk) (i : Identity) (v : Vault)
      → (write c d i v).1 ≡ ok tt
      → (b : Bytes) × (e : Bytes) × (encode c v ≡ ok b)
        × (c.seal i d.random b ≡ some e)
        × ((write c d i v).0.file ≡ some e)
  unfolding write
  written d i v h = elim (Result-cases (encode c v)) [
    | inr (e, bad) ↦ absurd (ground arith)
    | inl (b, enc) ↦ elim (Option-cases (c.seal i d.random b)) [
      | inl bad ↦ absurd (ground arith)
      | inr (e, sealed) ↦ (b, e, enc, sealed, ground (arith, write_file-ok d.faults d.files e))
    ]
  ]

  -- With a codec that reads what it writes: a successful Write of a vault of the current version
  -- leaves a file that Read, with the same identity, decodes to that vault.
  pub read-write :
      (d : Disk) (i : Identity) (v : Vault) (after : Disk)
      → v.version ≡ current
      → (write c d i v).1 ≡ ok tt
      → after.files ≡ (write c d i v).0
      → after.opens ≡ true
      → read c after i ≡ ok v
  read-write d i v after cur h f o =
      let (b, e, enc, sealed, file) = written d i v h in
      sealed_read after i v d.random b e cur enc sealed (ap (λ (x : Files). x.file) f ∙ file) o

module _ {Identity : Type 0} (c : Codec Identity) where
  -- A Write that fails before the temporary file is renamed, and is not stopped between the two
  -- renames, leaves the file with its content.
  pub write-err :
      (d : Disk) (i : Identity) (v : Vault) (e : Error)
      → (write c d i v).1 ≡ err e
      → e ≢ write_failed rename
      → e ≢ write_failed sync_dir
      → (write c d i v).0.file ≡ d.files.file
  unfolding write
  write-err d i v e h p q = elim (Result-cases (encode c v)) [
    | inr (e', bad) ↦ ground arith
    | inl (b, enc) ↦ elim (Option-cases (c.seal i d.random b)) [
      | inl bad ↦ ground arith
      | inr (x, sealed) ↦ elim (Result-cases (write_file d.faults d.files x true).1) [
        | inl (u, fine) ↦ absurd (ground arith)
        | inr (st, bad) ↦
            rw (enc, write, sealed)
              (write_file-err d.faults d.files x st bad (λ a. p (ground arith))
                (λ a. q (ground arith)))
      ]
    ]
  ]
