-- ===== src/Atomicfile/Replace.antt =====
-- What a write leaves behind.
use mathlib.Core.Path.{subst}
use keycell.Prelude.{
  true, false, none, some, Option, Option-cases, Result, ok, err, ◌≡◌, ◌⊎◌, inl, inr, arith, ◌≢◌,
  Bool-cases,
}
use keycell.Prelude.Bytes.{Bytes}
use keycell.Atomicfile.{
  Files, Faults, Step, create, chmod, write, sync, close, back_up, rename, sync_dir, write_file,
  finish, move_aside, with_temp,
}

-- The backup after the old file was moved aside.
abbrev pub moved : Files → Option Bytes
moved fs = elim fs.file [ none ↦ fs.backup | some old ↦ some old ]

-- How a write ends: the new content is in place, with the old one as backup if there was one, and
-- only the directory may not be synced; or the files are as they were, with an error; or the last
-- rename fails, where the file is gone and its content is the backup.
pub data Written (fs : Files) (d : Bytes) (r : Files × Result Step (Unit {0})) : Type 0 where
  replaced :
      r.0.file ≡ some d
      → r.0.backup ≡ moved fs
      → (r.1 ≡ ok tt) ⊎ (r.1 ≡ err sync_dir)
      → Written fs d r
  left : (s : Step) → r.0.file ≡ fs.file → r.0.backup ≡ fs.backup → r.1 ≡ err s → Written fs d r
  aside : r.0.file ≡ none → r.0.backup ≡ moved fs → r.1 ≡ err rename → Written fs d r

finish-Written :
    (k : Faults) (fs : Files) (d : Bytes) → Written fs d (finish k (move_aside (with_temp fs d)))
unfolding finish
finish-Written k fs d = elim (Bool-cases k.renames) [
  | inl e ↦ elim (Option-cases fs.file) [
    | inl none_there ↦ replaced (ground arith) (ground arith) (ground arith)
    | inr (old, there) ↦ replaced (ground arith) (ground arith) (ground arith)
  ]
  | inr e ↦ elim (Option-cases fs.file) [
    | inl none_there ↦ aside (ground arith) (ground arith) (ground arith)
    | inr (old, there) ↦ aside (ground arith) (ground arith) (ground arith)
  ]
]

write_file-Written : (k : Faults) (fs : Files) (d : Bytes) → Written fs d (write_file k fs d true)
unfolding write_file
write_file-Written k fs d = elim (Bool-cases k.creates) [
  | inr e ↦ left create (ground arith) (ground arith) (ground arith)
  | inl creates ↦ elim (Bool-cases k.chmods) [
    | inr e ↦ left chmod (ground arith) (ground arith) (ground arith)
    | inl chmods ↦ elim (Bool-cases k.writes) [
      | inr e ↦ left write (ground arith) (ground arith) (ground arith)
      | inl writes ↦ elim (Bool-cases k.syncs) [
        | inr e ↦ left sync (ground arith) (ground arith) (ground arith)
        | inl syncs ↦ elim (Bool-cases k.closes) [
          | inr e ↦ left close (ground arith) (ground arith) (ground arith)
          | inl closes ↦ elim (Bool-cases k.backs_up) [
            | inr e ↦ left back_up (ground arith) (ground arith) (ground arith)
            | inl backs_up ↦
                let is : finish k (move_aside (with_temp fs d)) ≡ write_file k fs d true =
                  ground arith in
                subst (Written fs d) is (finish-Written k fs d)
          ]
        ]
      ]
    ]
  ]
]

-- A write that keeps a backup, with no temporary file before, either puts the new content in place,
-- with the old one as backup if there was one, and succeeds or fails to sync the directory; or
-- leaves the file and the backup as they were, with an error; or fails at the last rename, where
-- the file is gone and its content is in the backup if there was one. The temporary file is gone
-- in each case if it can be removed.
pub write_file_outcomes :
    (k : Faults) (fs : Files) (d : Bytes)
    → fs.temp ≡ none
    → ((k.removes_temp ≡ false) ⊎ ((write_file k fs d true).0.temp ≡ none))
      × Written fs d (write_file k fs d true)
unfolding write_file
write_file_outcomes k fs d h = (gone (Bool-cases k.removes_temp), write_file-Written k fs d)
  where
    gone :
        (k.removes_temp ≡ true) ⊎ (k.removes_temp ≡ false)
        → (k.removes_temp ≡ false) ⊎ ((write_file k fs d true).0.temp ≡ none)
    gone (inl e) = inr (ground arith)
    gone (inr e) = inl e

-- No content is lost: whatever fails, the old content is in the file or in the backup.
pub write_file_keeps :
    (k : Faults) (fs : Files) (d old : Bytes)
    → fs.file ≡ some old
    → ((write_file k fs d true).0.file ≡ some old) ⊎ ((write_file k fs d true).0.backup ≡ some old)
unfolding write_file
write_file_keeps k fs d old h = ground arith

-- A write that reports success has replaced the file.
pub write_file-ok :
    (k : Faults) (fs : Files) (d : Bytes)
    → (write_file k fs d true).1 ≡ ok tt
    → (write_file k fs d true).0.file ≡ some d
unfolding write_file
write_file-ok k fs d h = ground arith

-- A write that fails before the last rename leaves the file as it was.
pub write_file-err :
    (k : Faults) (fs : Files) (d : Bytes) (s : Step)
    → (write_file k fs d true).1 ≡ err s
    → s ≢ rename
    → s ≢ sync_dir
    → (write_file k fs d true).0.file ≡ fs.file
unfolding write_file
write_file-err k fs d s h p q = ground arith
