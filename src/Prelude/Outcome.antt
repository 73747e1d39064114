-- ===== src/Prelude/Outcome.antt =====
-- A Go function that returns a value and an error returns a `Result` here.
use mathlib.Core.Path.{◌≡◌, refl}
use mathlib.Core.Bool.{Bool, true, false}
use mathlib.Core.Logic.{◌⊎◌, inl, inr}

pub data Result {ℓ} (E : Type 0) (A : Type ℓ) : Type ℓ where
  ok : A → Result E A
  err : E → Result E A

module _ {E : Type 0} where
  infixl 5 ◌>>=◌ ◌>>◌
  -- An early return: an error unless the test holds.
  abbrev pub guard : Bool → E → Result E (Unit {0})
  guard false e = err e
  guard true e = ok tt

  pub Result-cases {ℓ} :
      {A : Type ℓ} (r : Result E A) → ((a : A) × (r ≡ ok a)) ⊎ ((e : E) × (r ≡ err e))
  Result-cases (ok a) = inl (a, refl)
  Result-cases (err e) = inr (e, refl)

  -- `v, err := r; if err != nil { return err }`
  abbrev pub ◌>>=◌ {ℓ κ} : {A : Type ℓ} {B : Type κ} → Result E A → (A → Result E B) → Result E B
  err e >>= rest = err e
  ok v >>= rest = rest v

  pub >>=-eq-ok {ℓ κ} :
      {A : Type ℓ} {B : Type κ} (r : Result E A) (rest : A → Result E B) {b : B}
      → (r >>= rest) ≡ ok b
      → (v : A) × (r ≡ ok v) × (rest v ≡ ok b)
  >>=-eq-ok (err e) rest done = cc
  >>=-eq-ok (ok v) rest done = (v, refl, done)

  abbrev pub ◌>>◌ {ℓ} : {B : Type ℓ} → Result E (Unit {0}) → Result E B → Result E B
  r >> rest = r >>= λ _. rest

-- `if err := f(); err != nil { return wrap(err) }`
abbrev pub map_err {ℓ} : {E F : Type 0} {A : Type ℓ} → (E → F) → Result E A → Result F A
map_err wrap (err e) = err (wrap e)
map_err wrap (ok v) = ok v

pub map_err-eq-ok {ℓ} :
    {E F : Type 0} {A : Type ℓ} (wrap : E → F) (r : Result E A) {v : A}
    → map_err wrap r ≡ ok v
    → r ≡ ok v
map_err-eq-ok wrap (err e) done = absurd (cc)
map_err-eq-ok wrap (ok v) done = cc

pub map_err-eq-err {ℓ} :
    {E F : Type 0} {A : Type ℓ} (wrap : E → F) (r : Result E A) {x : F}
    → map_err wrap r ≡ err x
    → (e : E) × (r ≡ err e) × (x ≡ wrap e)
map_err-eq-err wrap (err e) done = (e, refl, cc)
map_err-eq-err wrap (ok v) done = absurd (cc)
