-- ===== src/Daemon/Store/Listing.antt =====
-- What List returns.
use keycell.Daemon.Session.{Session}
use keycell.Daemon.Store.{Secret, Filter, to_secret, matches, collect, place, sort}
use mathlib.Core.Path.{subst, ap₂}
use keycell.Prelude.{
  true, false, List, [], ◌∷◌, Option, none, some, ◌≡◌, refl, arith, if◌then◌else◌, Bool-cases, inl,
  inr, ◌∙◌, sym, ap, All, All-map,
}
use keycell.Prelude.Bytes.{
  Bytes, equal, equal_iff, equal→eq, equal_refl, less, less_trans, less_total, less_irrefl,
}
use keycell.Prelude.Maps.{Map, lookup, IsMap}
use keycell.Vault.Model
use keycell.Vault.Model.{Vault}

-- The entry of a listing with the given name.
unfoldable pub named : Bytes → List Secret → Option Secret
named j [] = none
named j (x ∷ xs) = if equal x.name j then some x else named j xs

-- Strictly ascending names.
abbrev pub IsSorted : List Secret → Type 0
IsSorted [] = Unit
IsSorted (x ∷ xs) = All (λ (y : Secret). less x.name y.name ≡ true) xs × IsSorted xs

abbrev IsDistinct : List Secret → Type 0
IsDistinct [] = Unit
IsDistinct (x ∷ xs) = (named x.name xs ≡ none) × IsDistinct xs

-- What a listing shows of a secret.
abbrev pub shown : Filter → Bytes → Option Model.Secret → Option Secret
shown f j none = none
shown f j (some s) = if matches f j s then some (to_secret j s) else none

named-collect :
    (f : Filter) (j : Bytes) (m : Map Model.Secret)
    → IsMap m
    → named j (collect f m) ≡ shown f j (lookup j m)
unfolding named collect lookup to_secret
named-collect f j [] h = refl
named-collect f j ((n, s) ∷ m) h = elim (Bool-cases (equal n j)) [
  | inl e ↦
      let same : n ≡ j = equal→eq n j e in
      let gone : lookup j m ≡ none = rw (← same) h.0 in
      let rest : named j (collect f m) ≡ none = named-collect f j m h.1 ∙ ap (shown f j) gone in
      rw (← same) (ground (arith, equal_refl n, rest))
  | inr e ↦ ground (arith, named-collect f j m h.1)
]

collect-IsDistinct : (f : Filter) (m : Map Model.Secret) → IsMap m → IsDistinct (collect f m)
unfolding collect to_secret
collect-IsDistinct f [] h = tt
collect-IsDistinct f ((n, s) ∷ m) h = elim (Bool-cases (matches f n s)) [
  | inl e ↦
      rw (e, to_secret) (named-collect f n m h.1 ∙ ap (shown f n) h.0, collect-IsDistinct f m h.1)
  | inr e ↦ rw e (collect-IsDistinct f m h.1)
]

named-place :
    (x : Secret) (ys : List Secret) (j : Bytes)
    → named x.name ys ≡ none
    → named j (place x ys) ≡ (if equal x.name j then some x else named j ys)
unfolding named place
named-place x [] j h = refl
named-place x (y ∷ ys) j h =
    ground
      (arith, named-place x ys j, equal_iff y.name j, equal_iff x.name j, equal_iff y.name x.name)

named-sort : (xs : List Secret) (j : Bytes) → IsDistinct xs → named j (sort xs) ≡ named j xs
unfolding named sort
named-sort [] j h = refl
named-sort (x ∷ xs) j h =
    named-place x (sort xs) j (named-sort xs x.name h.1 ∙ h.0) ∙ rw (named-sort xs j h.1)

All-place :
    (P : Secret → Type 0) (x : Secret) (ys : List Secret) → P x → All P ys → All P (place x ys)
unfolding place
All-place P x [] p h = (p, tt)
All-place P x (y ∷ ys) p h = elim (Bool-cases (less y.name x.name)) [
  | inl e ↦ rw e (h.0, All-place P x ys p h.1)
  | inr e ↦ rw e (p, h)
]

place-IsSorted :
    (x : Secret) (ys : List Secret) → named x.name ys ≡ none → IsSorted ys → IsSorted (place x ys)
unfolding place named
place-IsSorted x [] n h = (tt, tt)
place-IsSorted x (y ∷ ys) n h = elim (Bool-cases (less y.name x.name)) [
  | inl e ↦
      rw e
        (All-place _ x ys e h.0, place-IsSorted x ys (ground (arith, equal_iff y.name x.name)) h.1)
  | inr e ↦
      let above : less x.name y.name ≡ true =
        less_total y.name x.name e (λ same. ground (arith, equal_iff y.name x.name)) in
      rw e ((above, All-map _ _ ys (λ z l. less_trans x.name y.name z.name above l) h.0), h)
]

sort-IsSorted : (xs : List Secret) → IsDistinct xs → IsSorted (sort xs)
unfolding sort
sort-IsSorted [] h = tt
sort-IsSorted (x ∷ xs) h =
    place-IsSorted x (sort xs) (named-sort xs x.name h.1 ∙ h.0) (sort-IsSorted xs h.1)

less_ne : (a b : Bytes) → less a b ≡ true → equal b a ≡ false
less_ne a b l = elim (Bool-cases (equal b a)) [
  | inr e ↦ e
  | inl e ↦
      let x : less a a ≡ true = subst (λ (z : Bytes). less a z ≡ true) (equal→eq b a e) l in
      absurd (cc (x, less_irrefl a))
]

named-above :
    (n : Bytes) (ys : List Secret)
    → All (λ (y : Secret). less n y.name ≡ true) ys
    → named n ys ≡ none
unfolding named
named-above n [] h = refl
named-above n (y ∷ ys) h = rw (less_ne n y.name h.0) (named-above n ys h.1)

-- A sorted list is known by what stands under each name.
sorted_unique :
    (xs ys : List Secret)
    → IsSorted xs
    → IsSorted ys
    → ((j : Bytes) → named j xs ≡ named j ys)
    → xs ≡ ys
unfolding named
sorted_unique [] [] sx sy h = refl
sorted_unique [] (y ∷ ys) sx sy h = absurd (ground (arith, h y.name, equal_refl y.name))
sorted_unique (x ∷ xs) [] sx sy h = absurd (ground (arith, h x.name, equal_refl x.name))
sorted_unique (x ∷ xs) (y ∷ ys) sx sy h = elim (Bool-cases (equal x.name y.name)) [
  | inl e ↦
      let same : x.name ≡ y.name = equal→eq x.name y.name e in
      let one : x ≡ y = ground (arith, h y.name, equal_refl y.name) in
      ap₂ ◌∷◌ one (
        sorted_unique xs ys sx.1 sy.1 (λ j. elim (Bool-cases (equal x.name j)) [
          | inl hit ↦
              let k : x.name ≡ j = equal→eq x.name j hit in
              let left : named j xs ≡ none = rw (← k) (named-above x.name xs sx.0) in
              let right : named j ys ≡ none = rw (← k, same) (named-above y.name ys sy.0) in
              left ∙ sym right
          | inr miss ↦ ground (arith, h j)
        ]))
  | inr e ↦ elim (Bool-cases (less x.name y.name)) [
    | inl l ↦
        let none_there =
          named-above x.name (y ∷ ys)
            (l, All-map _ _ ys (λ z m. less_trans x.name y.name z.name l m) sy.0) in
        absurd (ground (arith, h x.name, equal_refl x.name, none_there))
    | inr m ↦
        let l = less_total x.name y.name m (λ same. ground (arith, equal_iff x.name y.name)) in
        let none_there =
          named-above y.name (x ∷ xs)
            (l, All-map _ _ xs (λ z k. less_trans y.name x.name z.name l k) sx.0) in
        absurd (ground (arith, h y.name, equal_refl y.name, none_there))
  ]
]

-- The listing does not depend on the order in which the map is visited: two maps with the same
-- entries give the same sorted list.
sort-collect_order :
    (f : Filter) (m n : Map Model.Secret)
    → IsMap m
    → IsMap n
    → ((j : Bytes) → lookup j m ≡ lookup j n)
    → sort (collect f m) ≡ sort (collect f n)
sort-collect_order f m n hm hn same =
    sorted_unique _ _ (sort-IsSorted _ (collect-IsDistinct f m hm))
      (sort-IsSorted _ (collect-IsDistinct f n hn))
      (λ j. listed f j m hm ∙ ap (shown f j) (same j) ∙ sym (listed f j n hn))
  where
    listed :
        (f : Filter) (j : Bytes) (m : Map Model.Secret)
        → IsMap m
        → named j (sort (collect f m)) ≡ shown f j (lookup j m)
    listed f j m h = named-sort _ j (collect-IsDistinct f m h) ∙ named-collect f j m h
