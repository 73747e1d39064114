-- ===== src/DockerHelper/Commands/Logins.antt =====
-- Which secrets the docker helper writes and deletes.
use keycell.Client.{Api, Secret, Failure}
use keycell.DockerHelper.{
  Json, StoreRequest, Trouble, no_match, whitespace, bad_secret, ambiguous, daemon, no_server_url,
  no_username, no_secret, bad_json, kind, read_server_url, read_store_request, server_filter, only,
  renewed, new_login, secret_name,
}
use keycell.DockerHelper.Commands.{ended, match_server, save, keep, store, forget, erase, ended}
use keycell.DockerHelper.Quote.{unquote}
use keycell.Prelude.{
  ◌≡◌, ◌⊎◌, inl, inr, refl, arith, some, Result, ok, err, Result-cases, List, [], ◌∷◌,
  if◌then◌else◌,
}
use keycell.Prelude.Bytes.{Bytes, text, equal}
use keycell.Prelude.Maps.{lookup, lookup-insert, lookup-insert_self}

only-ok : (ss : List Secret) (s : Secret) → only ss ≡ ok s → ss ≡ s ∷ []
unfolding only
only-ok [] s h = absurd (cc)
only-ok (x ∷ []) s h = ground arith
only-ok (x ∷ y ∷ ss) s h = absurd (cc)

only-no_match : (ss : List Secret) → only ss ≡ err no_match → ss ≡ []
unfolding only
only-no_match [] h = refl
only-no_match (x ∷ []) h = absurd (cc)
only-no_match (x ∷ y ∷ ss) h = absurd (ground arith)

module _ {S : Type 0} (json : Json) (api : Api S) where
  matched :
      (st : S) (server : Bytes) (s : Secret)
      → match_server json api st server ≡ ok s
      → api.list st (server_filter server) ≡ ok (s ∷ [])
  unfolding match_server
  matched st server s h = elim (Result-cases (api.list st (server_filter server))) [
    | inr (e, bad) ↦ absurd (ground arith)
    | inl (ss, got) ↦ rw (← only-ok ss s (ground arith)) got
  ]

  unmatched :
      (st : S) (server : Bytes)
      → match_server json api st server ≡ err no_match
      → api.list st (server_filter server) ≡ ok []
  unfolding match_server
  unmatched st server h = elim (Result-cases (api.list st (server_filter server))) [
    | inr (e, bad) ↦ absurd (ground arith)
    | inl (ss, got) ↦ rw (← only-no_match ss (ground arith)) got
  ]

  -- A change that erase made: `after` is the daemon's state.
  pub record Erased (st : S) (stdin : Bytes) (after : S) : Type 0 where
    pub server : Bytes
    pub secret : Secret
    pub asked : read_server_url stdin ≡ ok server
    pub alone : api.list st (server_filter server) ≡ ok (secret ∷ [])
    pub is : after ≡ (api.delete st secret.name).0

  forget-err : (st : S) (t : Trouble) → (forget json api st (err t)).0 ≡ st
  unfolding forget
  forget-err st no_match = refl
  forget-err st no_server_url = refl
  forget-err st no_username = refl
  forget-err st no_secret = refl
  forget-err st bad_json = refl
  forget-err st (whitespace b) = refl
  forget-err st (bad_secret p) = refl
  forget-err st (ambiguous ns) = refl
  forget-err st (daemon e) = refl

  save-err :
      (st : S) (r : StoreRequest) (value : Bytes) (t : Trouble)
      → (t ≡ no_match) ⊎ ((save json api st r value (err t)).0 ≡ st)
  unfolding save
  save-err st r value no_match = inl refl
  save-err st r value no_server_url = inr refl
  save-err st r value no_username = inr refl
  save-err st r value no_secret = inr refl
  save-err st r value bad_json = inr refl
  save-err st r value (whitespace b) = inr refl
  save-err st r value (bad_secret p) = inr refl
  save-err st r value (ambiguous ns) = inr refl
  save-err st r value (daemon e) = inr refl

  ended-state : (x : S × Result Failure (Unit {0})) → (ended json api x).0 ≡ x.0
  unfolding ended
  ended-state (st, ok u) = refl
  ended-state (st, err e) = refl

  -- erase deletes at most one secret, and only the one that is alone in the daemon's list for the
  -- server; without a match, with several or on an error it changes nothing.
  erase-Erased :
      (st : S) (stdin : Bytes)
      → ((erase json api st stdin).0 ≡ st) ⊎ Erased st stdin (erase json api st stdin).0
  unfolding erase forget
  erase-Erased st stdin = elim (Result-cases (read_server_url stdin)) [
    | inr (t, bad) ↦ inl (ground arith)
    | inl (server, asked) ↦ elim (Result-cases (api.connect st)) [
      | inr (e, down) ↦ inl (ground arith)
      | inl (u, up) ↦ elim (Result-cases (match_server json api st server)) [
        | inl (s, m) ↦ inr (record {
          server = server;
          secret = s;
          asked = asked;
          alone = matched st server s m;
          is = ground arith;
        })
        | inr (t, m) ↦ inl (rw (asked, erase, up, m) (forget-err st t))
      ]
    ]
  ]

  -- A change that store made, for the secret `secret`.
  pub record Kept (st : S) (stdin : Bytes) (after : S) : Type 0 where
    pub request : StoreRequest
    pub secret : Secret
    pub asked : read_store_request json stdin ≡ ok request
    pub value : unquote request.secret ≡ ok secret.value
    pub username : lookup (text "username") secret.attributes ≡ some request.username
    pub is : after ≡ (api.store st secret).0
    pub from :
        (api.list st (server_filter request.server_url) ≡ ok [])
          × (secret.name ≡ secret_name request.server_url)
          × (secret.kind ≡ kind)
          × (lookup (text "server") secret.attributes ≡ some request.server_url)
        ⊎ ((old : Secret) × (api.list st (server_filter request.server_url) ≡ ok (old ∷ []))
            × (secret.name ≡ old.name)
            × (secret.kind ≡ old.kind)
            × ((k : Bytes)
                → lookup k secret.attributes ≡ (
                    if equal (text "username") k
                    then some request.username
                    else lookup k old.attributes)))

  keep-Kept :
      (st : S) (stdin : Bytes) (r : StoreRequest)
      → read_store_request json stdin ≡ ok r
      → ((keep json api st r).0 ≡ st) ⊎ Kept st stdin (keep json api st r).0
  unfolding keep save renewed equal lookup
  keep-Kept st stdin r asked = elim (Result-cases (unquote r.secret)) [
    | inr (p, bad) ↦ inl (ground arith)
    | inl (value, fine) ↦ elim (Result-cases (api.connect st)) [
      | inr (e, down) ↦ inl (ground arith)
      | inl (u, up) ↦ elim (Result-cases (match_server json api st r.server_url)) [
        | inl (s, m) ↦ inr (record {
          request = r;
          secret = renewed r value s;
          asked = asked;
          value = fine;
          username = lookup-insert_self (text "username") r.username s.attributes;
          is = rw (fine, keep, up, m) (ended-state (api.store st (renewed r value s)));
          from = inr (
            s,
            matched st r.server_url s m,
            refl,
            refl,
            λ k. lookup-insert (text "username") k r.username s.attributes,
          );
        })
        | inr (t, m) ↦ elim (save-err st r value t) [
          | inr same ↦ inl (rw (fine, keep, up, m) same)
          | inl is_none ↦ inr (record {
            request = r;
            secret = renewed r value (new_login r.server_url);
            asked = asked;
            value = fine;
            username =
                lookup-insert_self (text "username") r.username (new_login r.server_url).attributes;
            is =
                rw (fine, keep, up, m, is_none)
                  (ended-state (api.store st (renewed r value (new_login r.server_url))));
            from = inl (
              unmatched st r.server_url (rw (← is_none) m),
              refl,
              refl,
              lookup-insert (text "username") (text "server") r.username
                  (new_login r.server_url).attributes,
            );
          })
        ]
      ]
    ]
  ]

  -- store writes at most one secret, with the login's user name and with the value that the login
  -- quotes: the one that is alone in the daemon's list for the server, whose name, kind and other
  -- attributes stay, or, when that list is empty, a new one for the server.
  pub store-Kept :
      (st : S) (stdin : Bytes)
      → ((store json api st stdin).0 ≡ st) ⊎ Kept st stdin (store json api st stdin).0
  unfolding store
  store-Kept st stdin = elim (Result-cases (read_store_request json stdin)) [
    | inr (t, bad) ↦ inl (ground arith)
    | inl (r, asked) ↦ rw (asked, store) (keep-Kept st stdin r asked)
  ]
