-- ===== src/Atomicfile.antt =====
-- internal/atomicfile/atomicfile.go: one file is replaced by way of a temporary file. The file
-- system is the file, its `.bak` and the temporary file; `Faults` says which system calls succeed.
pub mod Replace
use keycell.Prelude.{Bool, true, false, not, Option, none, some, Result, ok, err, if◌then◌else◌, []}
use keycell.Prelude.Bytes.{Bytes}

pub record Files : Type 0 where
  pub file : Option Bytes
  pub backup : Option Bytes
  pub temp : Option Bytes

-- The step of `Write` whose error is returned.
pub data Step : Type 0 where
  create chmod write sync close back_up rename sync_dir : Step

-- For each system call, whether it succeeds, and what a write that fails leaves.
pub record Faults : Type 0 where
  pub creates : Bool
  pub chmods : Bool
  pub writes : Bool
  pub partial : Bytes
  pub syncs : Bool
  pub closes : Bool
  pub backs_up : Bool
  pub renames : Bool
  pub syncs_dir : Bool
  pub removes_temp : Bool

-- os.Rename(path, path+".bak"), where a missing file is no error
abbrev move_aside : Files → Files
move_aside fs = elim fs.file [ none ↦ fs | some old ↦ record fs { file = none; backup = some old } ]

-- os.Remove(tmpName), whose error is ignored
abbrev remove_temp : Faults → Files → Files
remove_temp k fs = if k.removes_temp then record fs { temp = none } else fs

-- os.Rename(tmpName, path) and what follows
finish : Faults → Files → Files × Result Step (Unit {0})
finish k fs =
    if k.renames
    then (record fs { file = fs.temp; temp = none }, (if k.syncs_dir then ok tt else err sync_dir))
    else (remove_temp k fs, err rename)

-- The temporary file, with what is in it.
abbrev with_temp : Files → Bytes → Files
with_temp fs d = record fs { temp = some d }

-- Write(path, data, perm, backup)
unfoldable pub write_file : Faults → Files → Bytes → Bool → Files × Result Step (Unit {0})
unfolding finish
write_file k fs d keep =
    if not k.creates
    then (fs, err create)
    else if not k.chmods
    then (remove_temp k (with_temp fs []), err chmod)
    else if not k.writes
    then (remove_temp k (with_temp fs k.partial), err write)
    else if not k.syncs
    then (remove_temp k (with_temp fs d), err sync)
    else if not k.closes
    then (remove_temp k (with_temp fs d), err close)
    else if keep
    then if k.backs_up
      then finish k (move_aside (with_temp fs d))
      else (remove_temp k (with_temp fs d), err back_up)
    else finish k (with_temp fs d)
