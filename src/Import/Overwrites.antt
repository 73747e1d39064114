-- ===== src/Import/Overwrites.antt =====
-- What an import writes.
use keycell.Client
use keycell.Client.{Api}
use keycell.Import.{everything, is_listed, sent, send, store_all, existing, import_secrets, names}
use keycell.Prelude.{
  ◌≡◌, ◌⊎◌, inl, inr, arith, true, false, Bool-cases, List, [], ◌∷◌, some, Option-cases, ok,
  Result-cases,
}
use keycell.Prelude.Bytes.{Bytes}
use keycell.Prelude.Maps.{Map, lookup}
use keycell.Vault.Model.{Secret, Vault}

module _ {S : Type 0} (api : Api S) where
  -- The calls of Store that lead from one state of the daemon to another: each is for a secret of
  -- the document `m` whose name is not in `skip`.
  pub data Stores (skip : List Client.Secret) (m : Map Secret) (st : S) : S → Type 0 where
    none_yet : Stores skip m st st
    store :
        {u : S} (n : Bytes) (s : Secret)
        → Stores skip m st u
        → lookup n m ≡ some s
        → is_listed n skip ≡ false
        → Stores skip m st (api.store u (sent n s)).0

  send-Stores :
      (skip : List Client.Secret) (m : Map Secret) (n : Bytes) (st u : S)
      → is_listed n skip ≡ false
      → Stores skip m st u
      → Stores skip m st (send api m n u).0
  unfolding send
  send-Stores skip m n st u new h = elim (Option-cases (lookup n m)) [
    | inl gone ↦ rw (gone, send) h
    | inr (s, here) ↦ rw (here, send) (store n s h here new)
  ]

  store_all-Stores :
      (skip : List Client.Secret) (m : Map Secret) (ns : List Bytes) (st u : S)
      → Stores skip m st u
      → Stores skip m st (store_all api skip m ns u).0
  unfolding store_all
  store_all-Stores skip m [] st u h = h
  store_all-Stores skip m (n ∷ ns) st u h = elim (Bool-cases (is_listed n skip)) [
    | inl there ↦ rw (there, store_all) (store_all-Stores skip m ns st u h)
    | inr new ↦
        let sent_one = send-Stores skip m n st u new h in
        elim (Result-cases (send api m n u).1) [
          | inl (x, fine) ↦
              rw (new, fine, store_all) (store_all-Stores skip m ns st (send api m n u).0 sent_one)
          | inr (e, bad) ↦ rw (new, bad, store_all) sent_one
        ]
  ]

  -- An import with --no-overwrite changes the daemon only by storing secrets of the document whose
  -- names the daemon did not list before the first of them.
  pub import_secrets-Stores :
      (v : Vault) (st : S)
      → ((import_secrets api true v st).0 ≡ st)
        ⊎ ((skip : List Client.Secret) × (api.list st everything ≡ ok skip)
            × Stores skip v.secrets st (import_secrets api true v st).0)
  unfolding import_secrets existing
  import_secrets-Stores v st = elim (Result-cases (api.connect st)) [
    | inr (e, down) ↦ inl (ground arith)
    | inl (u, up) ↦ elim (Result-cases (api.list st everything)) [
      | inr (e, bad) ↦ inl (ground arith)
      | inl (skip, got) ↦ inr (
        skip,
        got,
        rw (up, got, import_secrets)
            (store_all-Stores skip v.secrets (names v.secrets) st st none_yet),
      )
    ]
  ]
