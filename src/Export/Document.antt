-- ===== src/Export/Document.antt =====
-- What an export writes.
use keycell.Client
use keycell.Client.{Api, Failure}
use keycell.Export.{record_of, fetch_all, write_document}
use keycell.Import.{everything, is_listed}
use keycell.Prelude.{
  ◌≡◌, refl, ◌∙◌, arith, Bool, true, Bool-cases, List, [], ◌∷◌, ◌++◌, some, Result-cases, ok, inl,
  inr,
}
use keycell.Prelude.Bytes.{Bytes, equal, equal→eq}
use keycell.Prelude.Maps.{Map, lookup, insert, lookup-insert, lookup-insert_self}
use keycell.Vault.File
use keycell.Vault.File.{Codec, IsFaithful}
use keycell.Vault.File.RoundTrip.{decode-encode}
use keycell.Vault.Model.{Secret, Vault, new}

module _ {S : Type 0} (api : Api S) (st : S) where
  -- A map has what Get answers to a name.
  pub record Has (n : Bytes) (m : Map Secret) : Type 0 where
    pub full : Client.Secret
    pub is_got : api.get st n ≡ ok full
    pub is_there : lookup n m ≡ some (record_of full)

  insert-Has :
      (j : Bytes) (x : Client.Secret) (n : Bytes) (m : Map Secret)
      → api.get st j ≡ ok x
      → Has n m
      → Has n (insert j (record_of x) m)
  insert-Has j x n m got h =
      let hit = lookup-insert j n (record_of x) m in
      elim (Bool-cases (equal j n)) [
        | inl same ↦ record {
          full = x;
          is_got = rw (← equal→eq j n same) got;
          is_there = hit ∙ rw same refl;
        }
        | inr other ↦ record {
          full = h.full;
          is_got = h.is_got;
          is_there = hit ∙ rw other h.is_there;
        }
      ]

  module _ {I : Type 0} (c : Codec I) where
    fetch_all_keeps :
        (ss : List Client.Secret) (m m' : Map Secret) (n : Bytes)
        → fetch_all api c st ss m ≡ ok m'
        → Has n m
        → Has n m'
    unfolding fetch_all
    fetch_all_keeps [] m m' n h has = let e : m ≡ m' = cc h in rw (← e) has
    fetch_all_keeps (s ∷ ss) m m' n h has = elim (Result-cases (api.get st s.name)) [
      | inr (e, bad) ↦ absurd (cc (rw (bad, fetch_all) at h))
      | inl (x, got) ↦
          fetch_all_keeps ss (insert s.name (record_of x) m) m' n (rw (got, fetch_all) at h)
            (insert-Has s.name x n m got has)
    ]

    fetch_all-Has :
        (ss : List Client.Secret) (m m' : Map Secret) (n : Bytes)
        → fetch_all api c st ss m ≡ ok m'
        → is_listed n ss ≡ true
        → Has n m'
    unfolding fetch_all is_listed
    fetch_all-Has [] m m' n h there = absurd (cc)
    fetch_all-Has (s ∷ ss) m m' n h there = elim (Result-cases (api.get st s.name)) [
      | inr (e, bad) ↦ absurd (cc (rw (bad, fetch_all) at h))
      | inl (x, got) ↦
          let rest = rw (got, fetch_all) at h in
          elim (Bool-cases (equal s.name n)) [
            | inl same ↦
                let e = equal→eq s.name n same in
                fetch_all_keeps ss (insert s.name (record_of x) m) m' n rest (record {
                  full = x;
                  is_got = rw (← e) got;
                  is_there = rw (← e) (lookup-insert_self s.name (record_of x) m);
                })
            | inr other ↦
                fetch_all-Has ss (insert s.name (record_of x) m) m' n rest
                  (rw (other, is_listed) at there)
          ]
    ]

    -- What an export that ends with exit 0 has written.
    pub record Exported (out : Bytes) : Type 0 where
      pub listing : List Client.Secret
      pub is_listing : api.list st everything ≡ ok listing
      pub document : Bytes
      pub vault : Vault
      pub is_out : out ≡ document ++ b'\n' ∷ []
      pub is_vault : File.decode c document ≡ ok vault
      pub has_all : (n : Bytes) → is_listed n listing ≡ true → Has n vault.secrets

    written :
        (law : IsFaithful c) (writes : Bool) (ss : List Client.Secret) (m : Map Secret)
        → api.list st everything ≡ ok ss
        → fetch_all api c st ss [] ≡ ok m
        → (write_document api c writes (record new { secrets = m })).code ≡ 0
        → Exported (write_document api c writes (record new { secrets = m })).out
    unfolding write_document
    written law writes ss m listed got h =
        elim (Result-cases (File.encode c (record new { secrets = m }))) [
          | inr (e, bad) ↦ absurd (ground arith)
          | inl (b, enc) ↦ elim (Bool-cases writes) [
            | inr fails ↦ absurd (ground arith)
            | inl fine ↦ record {
              listing = ss;
              is_listing = listed;
              document = b;
              vault = record new { secrets = m };
              is_out = rw (enc, write_document, fine) refl;
              is_vault = decode-encode c law (record new { secrets = m }) b refl enc;
              has_all = λ n there. fetch_all-Has ss [] m n got there;
            }
          ]
        ]
