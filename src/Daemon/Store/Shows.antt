-- ===== src/Daemon/Store/Shows.antt =====
-- What it is for the daemon's files and session to show a view, and what a write does to that.
use keycell.Atomicfile.{Files, write_file}
use keycell.Daemon.Session.{Session}
use keycell.Daemon.Session.Invariant.{IsConsistent}
use keycell.Daemon.Store.{Error, write, read, locked}
use keycell.Daemon.Store.Effects.{write-Wrote, read-Wrote}
use keycell.Daemon.Store.Replay.{View, good}
use keycell.Prelude.{
  ℕ, Bool, true, false, Option, none, some, Result, ok, err, ◌≡◌, refl, if◌then◌else◌, ap, ◌∙◌,
}
use keycell.Prelude.Bytes.{Bytes}
use keycell.Prelude.Maps.{lookup}
use keycell.Vault.File
use keycell.Vault.File.{Codec, IsFaithful, Disk}
use keycell.Vault.Model
use keycell.Vault.Model.{Vault}

-- JSON writes every vault, and age seals every plaintext.
pub record IsTotal {I : Type 0} (c : Codec I) : Type 0 where
  pub marshals : (v : Vault) → (b : Bytes) × (c.marshal v ≡ some b)
  pub seals : (i : I) (r : ℕ) (p : Bytes) → (e : Bytes) × (c.seal i r p ≡ some e)

module _ {I : Type 0} (c : Codec I) where
  -- The daemon is in a state that its callers see as `a`: it holds the identity when the vault is
  -- open to them, and the file is sealed for this identity and has the secrets.
  pub record Shows (i : I) (s : Session I) (fs : Files) (a : View) : Type 0 where
    pub consistent : IsConsistent s
    pub holds : s.id ≡ (if a.is_open then some i else none)
    pub vault : Vault
    pub is_read : read c (good fs 0) i ≡ ok vault
    pub agrees : (n : Bytes) → lookup n vault.secrets ≡ a.secrets n

  -- A change that is refused leaves the files.
  write_refused :
      (s : Session I) (fs : Files) (r : ℕ) (modify : Vault → Result Error Vault) (i : I) (v : Vault)
      (e : Error)
      → s.id ≡ some i
      → read c (good fs 0) i ≡ ok v
      → modify v ≡ err e
      → write c s (good fs r) modify ≡ (fs, err e)
  unfolding write read File.read
  write_refused s fs r modify i v e h got bad = rw (h, got, bad) refl

  -- With every system call succeeding, so does File.write.
  file_written :
      IsTotal c
      → (fs : Files) (r : ℕ) (i : I) (v : Vault) → (File.write c (good fs r) i v).1 ≡ ok tt
  unfolding File.write File.encode write_file
  file_written total fs r i v =
      let (b, p) = total.marshals v in let (e, q) = total.seals i r b in rw (p, File.write, q) refl

  pub held :
      (i : I) (s : Session I) (fs : Files) (a : View) (b : Bool)
      → a.is_open ≡ b
      → Shows i s fs a
      → s.id ≡ (if b then some i else none)
  held i s fs a b e h = h.holds ∙ ap (λ x. if x then some i else none) e

  -- A write that is refused.
  pub refused :
      (i : I) (s : Session I) (fs : Files) (a : View) (r : ℕ) (modify : Vault → Result Error Vault)
      (e : Error)
      → a.is_open ≡ true
      → (h : Shows i s fs a) → modify h.vault ≡ err e
      → (((write c s (good fs r) modify).1 ≡ err e) × Shows i s (write c s (good fs r) modify).0 a)
  refused i s fs a r modify e opened h bad =
      let is =
        write_refused s fs r modify i h.vault e (held i s fs a true opened h) h.is_read bad in
      (ap (λ x. x.1) is, rw is h)

  -- To callers who find the vault locked, a write is refused.
  pub shut_out :
      (i : I) (s : Session I) (fs : Files) (a : View) (r : ℕ) (modify : Vault → Result Error Vault)
      → a.is_open ≡ false
      → Shows i s fs a
      → (((write c s (good fs r) modify).1 ≡ err locked)
          × Shows i s (write c s (good fs r) modify).0 a)
  unfolding write
  shut_out i s fs a r modify shut h =
      let e = held i s fs a false shut h in
      let is : write c s (good fs r) modify ≡ (fs, err locked) = rw (e, write) refl in
      (ap (λ x. x.1) is, rw is h)

  module _ (law : IsFaithful c) (total : IsTotal c) where
    -- A change that is made ends in the files.
    write_made :
        (s : Session I) (fs : Files) (r : ℕ) (modify : Vault → Result Error Vault) (i : I)
        (v w : Vault)
        → ((v w : Vault) → modify v ≡ ok w → w.version ≡ v.version)
        → s.id ≡ some i
        → read c (good fs 0) i ≡ ok v
        → modify v ≡ ok w
        → ((write c s (good fs r) modify).1 ≡ ok tt)
          × (read c (good (write c s (good fs r) modify).0 0) i ≡ ok w)
    unfolding write read File.read
    write_made s fs r modify i v w same h got made =
        let fine : (write c s (good fs r) modify).1 ≡ ok tt =
          rw (h, got, made, write, file_written total fs r i w) refl in
        let x = write-Wrote c s (good fs r) modify i h fine in
        let first : x.before ≡ v = cc (x.was_read, got) in
        let last : x.after ≡ w = cc (x.changed, made, first) in
        (
          fine,
          read-Wrote c law i (good fs r) modify _ (good (write c s (good fs r) modify).0 0) same x
                (record { files = refl; opens = refl })
              ∙ ap ok last,
        )

    pub made :
        (i : I) (s : Session I) (fs : Files) (a : View) (r : ℕ)
        (modify : Vault → Result Error Vault) (w : Vault) (f : Bytes → Option Model.Secret)
        → ((v w : Vault) → modify v ≡ ok w → w.version ≡ v.version)
        → a.is_open ≡ true
        → (h : Shows i s fs a) → modify h.vault ≡ ok w
        → ((j : Bytes) → lookup j w.secrets ≡ f j)
        → (((write c s (good fs r) modify).1 ≡ ok tt)
            × Shows i s (write c s (good fs r) modify).0 (record a { secrets = f }))
    made i s fs a r modify w f same opened h change agree =
        let (fine, got) =
          write_made s fs r modify i h.vault w same (held i s fs a true opened h) h.is_read
            change in
        (
          fine,
          record {
            consistent = h.consistent;
            holds = h.holds;
            vault = w;
            is_read = got;
            agrees = agree;
          },
        )
