-- ===== src/Secmem.antt =====
-- internal/secmem/secmem.go: regions outside the Go heap. The memory is the list of mapped
-- regions; `Calls` says which system calls succeed. Harden is not modelled.
pub mod Regions
use keycell.Prelude.{
  ℕ, ◌+◌, ◌-◌, ◌*◌, ◌/◌, Bool, true, false, not, List, [], ◌∷◌, ◌++◌, Option, none, some, Result,
  ok, err, length, drop, replicate, ◌==◌, if◌then◌else◌,
}
use keycell.Prelude.Bytes.{Bytes}

pub record Region : Type 0 where
  pub handle : ℕ
  pub content : Bytes

pub record Memory : Type 0 where
  pub fresh : ℕ
  pub mapped : List Region

pub record Calls : Type 0 where
  pub page : ℕ
  pub mmaps : Bool
  pub mlocks : Bool
  pub madvises : Bool

pub record Buffer : Type 0 where
  pub handle : ℕ
  pub size : ℕ

pub data Failure : Type 0 where
  bad_size mmap mlock madvise : Failure

abbrev pub no_memory : Memory
no_memory = record { fresh = 0; mapped = [] }

-- unix.Munmap
unfoldable pub unmap : ℕ → List Region → List Region
unmap h [] = []
unmap h (r ∷ rs) = let rest = unmap h rs in if r.handle == h then rest else r ∷ rest

abbrev map_region : ℕ → Memory → Memory
map_region n m = record {
  fresh = m.fresh + 1;
  mapped = record { handle = m.fresh; content = replicate n 0 } ∷ m.mapped;
}

abbrev undo : ℕ → Memory → Memory
undo h m = record m { mapped = unmap h m.mapped }

-- New
unfoldable pub new : Calls → ℕ → Memory → Memory × Result Failure Buffer
unfolding unmap
new k size m =
    let n = (size + k.page - 1) / k.page * k.page in
    let m' = map_region n m in
    if size == 0
    then (m, err bad_size)
    else if not k.mmaps
    then (m, err mmap)
    else if not k.mlocks
    then (undo m.fresh m', err mlock)
    else if not k.madvises
    then (undo m.fresh m', err madvise)
    else (m', ok (record { handle = m.fresh; size = size }))

-- copy(b.Bytes(), src), where `src` has the size that New was given
unfoldable pub fill : ℕ → Bytes → List Region → List Region
fill h src [] = []
fill h src (r ∷ rs) =
    let rest = fill h src rs in
    (if r.handle == h
      then record { handle = h; content = src ++ drop (length src) r.content }
      else r)
    ∷ rest

-- Destroy: the region is zeroed, unlocked and unmapped.
unfoldable pub destroy : Buffer → Memory → Memory
unfolding unmap
destroy b m = record m { mapped = unmap b.handle m.mapped }
