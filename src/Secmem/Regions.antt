-- ===== src/Secmem/Regions.antt =====
-- What New, the copy into a buffer and Destroy do to the mapped regions.
use keycell.Prelude.{
  ℕ, ◌+◌, ◌-◌, ◌*◌, ◌/◌, ◌<◌, ◌≤◌, List, [], ◌∷◌, ok, err, All, ◌≡◌, refl, arith, replicate,
}
use keycell.Prelude.Bytes.{Bytes}
use keycell.Secmem.{Region, Memory, Calls, Buffer, Failure, unmap, new, fill}

-- Every mapped handle was given out before.
abbrev pub IsOlder : ℕ → List Region → Type 0
IsOlder n = All (λ (r : Region). r.handle < n)

pub unmap-absent : (n : ℕ) (rs : List Region) → IsOlder n rs → unmap n rs ≡ rs
unfolding unmap
unmap-absent n [] h = refl
unmap-absent n (r ∷ rs) h = ground (arith, unmap-absent n rs h.1)

pub fill-absent : (n : ℕ) (src : Bytes) (rs : List Region) → IsOlder n rs → fill n src rs ≡ rs
unfolding fill
fill-absent n src [] h = refl
fill-absent n src (r ∷ rs) h = ground (arith, fill-absent n src rs h.1)

-- New that fails leaves nothing mapped that was not mapped before.
pub new-err :
    (k : Calls) (n : ℕ) (m : Memory) (e : Failure)
    → IsOlder m.fresh m.mapped
    → (new k n m).1 ≡ err e
    → ((new k n m).0.mapped ≡ m.mapped) × (m.fresh ≤ (new k n m).0.fresh)
unfolding new
new-err k n m e h bad = ground (arith, unmap-absent m.fresh m.mapped h)

-- New that succeeds maps one region of zeros under a handle that was never used.
pub new-ok :
    (k : Calls) (n : ℕ) (m : Memory) (b : Buffer)
    → (new k n m).1 ≡ ok b
    → (z : ℕ) × (b.handle ≡ m.fresh)
      × ((new k n m).0.mapped ≡ record { handle = m.fresh; content = replicate z 0 } ∷ m.mapped)
      × ((new k n m).0.fresh ≡ m.fresh + 1)
unfolding new
new-ok k n m b fine = ((n + k.page - 1) / k.page * k.page, ground arith, ground arith, ground arith)
