-- ===== src/GitCredential/Commands/Effects.antt =====
-- Which secret, if any, the subcommands store and erase touch.
use keycell.Client.{Api, Secret}
use keycell.GitCredential.{
  GitRequest, MatchError, no_match, ambiguous, choose, match_git_credential, git_name, git_kind,
  git_attrs,
}
use keycell.GitCredential.Commands.{
  git_request, host_filter, Unmatched, daemon, choice, git_match, git_store, drop_match, git_erase,
}
use keycell.GitCredential.Matching.{
  with_score, IsBest, IsAttained, answer, match_git_credential-IsBest,
}
use keycell.GitCredential.Scores.{Serves, git_score-set_fields}
use keycell.Prelude.{
  All, All-map, ℕ, ◌≡◌, ◌≢◌, ◌⊎◌, inl, inr, refl, arith, Option, none, some, ok, err, Result-cases,
  List, [], ◌∷◌, Bool-cases, ◌∙◌, sym,
}
use keycell.Prelude.Bytes.{Bytes, equal, eq→equal}

-- The one candidate that has the best score.
pub record IsOnlyBest (r : GitRequest) (ss : List Secret) (s : Secret) : Type 0 where
  pub score : ℕ
  pub best : IsBest r (some score) ss
  pub alone : with_score r score ss ≡ s ∷ []

choose-ok : (ss : List Secret) (s : Secret) → choose ss ≡ ok s → ss ≡ s ∷ []
unfolding choose
choose-ok [] s h = absurd (cc)
choose-ok (x ∷ []) s h = ground arith
choose-ok (x ∷ y ∷ ss) s h = absurd (cc)

choose-no_match : (ss : List Secret) → choose ss ≡ err no_match → ss ≡ []
unfolding choose
choose-no_match [] h = refl
choose-no_match (x ∷ []) h = absurd (cc)
choose-no_match (x ∷ y ∷ ss) h = absurd (ground arith)

only_best :
    (r : GitRequest) (ss : List Secret) (s : Secret)
    → match_git_credential ss r ≡ ok s
    → IsOnlyBest r ss s
only_best r ss s h = let m = match_git_credential-IsBest ss r in from m.score m.best m.is
  where
    from :
        (o : Option ℕ)
        → IsBest r o ss
        → match_git_credential ss r ≡ answer r o ss
        → IsOnlyBest r ss s
    from none best e = absurd (cc (h, e))
    from (some m) best e = record {
      score = m;
      best = best;
      alone = choose-ok (with_score r m ss) s (sym e ∙ h);
    }

-- No secret serves the request, when there is no match.
none-Serves :
    (r : GitRequest) (ss : List Secret)
    → match_git_credential ss r ≡ err no_match
    → All (λ (s : Secret). ¬ Serves s r) ss
none-Serves r ss h = let m = match_git_credential-IsBest ss r in from m.score m.best m.attained m.is
  where
    from :
        (o : Option ℕ)
        → IsBest r o ss
        → IsAttained r o ss
        → match_git_credential ss r ≡ answer r o ss
        → All (λ (s : Secret). ¬ Serves s r) ss
    from none best there e =
        All-map _ _ ss
          (λ s no_score serves. absurd (cc (no_score, git_score-set_fields s r serves))) best
    from (some m) best there e = absurd (there (choose-no_match (with_score r m ss) (sym e ∙ h)))

module _ {S : Type 0} (api : Api S) where
  -- Where the answer that nothing matches comes from.
  unmatched :
      (st : S) (r : GitRequest)
      → git_match api st r ≡ err (choice no_match)
      → (ss : List Secret) × (api.list st (host_filter r) ≡ ok ss)
        × All (λ (s : Secret). ¬ Serves s r) ss
  unfolding git_match
  unmatched st r h = elim (Result-cases (api.list st (host_filter r))) [
    | inr (e, bad) ↦ absurd (ground arith)
    | inl (ss, got) ↦
        (ss, got, none-Serves r ss (by_match ss got (Result-cases (match_git_credential ss r))))
  ]
    where
      by_match :
          (ss : List Secret)
          → api.list st (host_filter r) ≡ ok ss
          → ((x : Secret) × (match_git_credential ss r ≡ ok x))
            ⊎ ((e : MatchError) × (match_git_credential ss r ≡ err e))
          → match_git_credential ss r ≡ err no_match
      by_match ss got (inl (x, fine)) = absurd (ground arith)
      by_match ss got (inr (e, bad)) = ground arith

  -- Where a match comes from.
  matched :
      (st : S) (r : GitRequest) (s : Secret)
      → git_match api st r ≡ ok s
      → (ss : List Secret) × (api.list st (host_filter r) ≡ ok ss) × IsOnlyBest r ss s
  unfolding git_match
  matched st r s h = elim (Result-cases (api.list st (host_filter r))) [
    | inr (e, bad) ↦ absurd (ground arith)
    | inl (ss, got) ↦
        (ss, got, only_best r ss s (by_match ss got (Result-cases (match_git_credential ss r))))
  ]
    where
      by_match :
          (ss : List Secret)
          → api.list st (host_filter r) ≡ ok ss
          → ((x : Secret) × (match_git_credential ss r ≡ ok x))
            ⊎ ((e : MatchError) × (match_git_credential ss r ≡ err e))
          → match_git_credential ss r ≡ ok s
      by_match ss got (inl (x, fine)) = ground arith
      by_match ss got (inr (e, bad)) = absurd (ground arith)

  -- What a subcommand did, when it changed the daemon: `after` is its state.
  pub record Erased (st : S) (stdin : Bytes) (after : S) : Type 0 where
    pub request : GitRequest
    pub listed : List Secret
    pub secret : Secret
    pub parsed : git_request stdin ≡ ok request
    pub found : api.list st (host_filter request) ≡ ok listed
    pub only : IsOnlyBest request listed secret
    pub is : after ≡ (api.delete st secret.name).0

  -- erase deletes at most one secret, and only the one that alone has the best score among the
  -- secrets of the host; on no match, an ambiguous match or an error it deletes nothing.
  pub git_erase-Erased :
      (st : S) (stdin : Bytes)
      → ((git_erase api st stdin).0 ≡ st) ⊎ Erased st stdin (git_erase api st stdin).0
  unfolding git_erase
  git_erase-Erased st stdin = elim (Result-cases (git_request stdin)) [
    | inr (x, bad) ↦ inl (ground arith)
    | inl (r, parsed) ↦ elim (Result-cases (api.connect st)) [
      | inr (e, down) ↦ inl (ground arith)
      | inl (u, up) ↦ elim (Result-cases (git_match api st r)) [
        | inl (s, m) ↦
            let (ss, listed, only) = matched st r s m in
            inr (record {
              request = r;
              listed = ss;
              secret = s;
              parsed = parsed;
              found = listed;
              only = only;
              is = ground arith;
            })
        | inr (e, m) ↦ inl (rw (parsed, git_erase, up, m) (dropped e))
      ]
    ]
  ]
    where
      dropped : (e : Unmatched) → (drop_match api st (err e)).0 ≡ st
      dropped (choice no_match) = refl
      dropped (choice (ambiguous names)) = refl
      dropped (daemon e) = refl

  -- What store asks of the daemon: the secret that was found, or a new one, with the new password.
  pub record Saved (st : S) (stdin : Bytes) (after : S) : Type 0 where
    pub request : GitRequest
    pub secret : Secret
    pub parsed : git_request stdin ≡ ok request
    pub has_password : request.password ≢ []
    pub value : secret.value ≡ request.password
    pub is : after ≡ (api.store st secret).0
    pub from :
        ((ss : List Secret) × (api.list st (host_filter request) ≡ ok ss)
          × All (λ (s : Secret). ¬ Serves s request) ss
          × (secret.name ≡ git_name request)
          × (secret.kind ≡ git_kind)
          × (secret.attributes ≡ git_attrs request))
        ⊎ ((old : Secret) × (ss : List Secret) × (api.list st (host_filter request) ≡ ok ss)
            × IsOnlyBest request ss old
            × (secret.name ≡ old.name)
            × (secret.kind ≡ old.kind)
            × (secret.attributes ≡ old.attributes))

  -- store writes at most one secret: the one that alone has the best score, with its name, kind
  -- and attributes kept and its value replaced by the password, or, when no secret of the host
  -- serves the request, a new one named and described by the request. Without a password, on an ambiguous
  -- match or on an error it writes nothing.
  pub git_store-Saved :
      (st : S) (stdin : Bytes)
      → ((git_store api st stdin).0 ≡ st) ⊎ Saved st stdin (git_store api st stdin).0
  unfolding git_store
  git_store-Saved st stdin = elim (Result-cases (git_request stdin)) [
    | inr (x, bad) ↦ inl (ground arith)
    | inl (r, parsed) ↦ elim (Bool-cases (equal r.password [])) [
      | inl nothing ↦ inl (ground arith)
      | inr some_password ↦ elim (Result-cases (api.connect st)) [
        | inr (e, down) ↦ inl (ground arith)
        | inl (u, up) ↦
            let password : r.password ≢ [] = λ e. ground (arith, eq→equal r.password [] e) in
            elim (Result-cases (git_match api st r)) [
              | inl (s, m) ↦
                  let (ss, listed, only) = matched st r s m in
                  inr (record {
                    request = r;
                    secret = record s { value = r.password };
                    parsed = parsed;
                    has_password = password;
                    value = refl;
                    is = ground arith;
                    from = inr (s, ss, listed, only, refl, refl, refl);
                  })
              | inr (choice no_match, m) ↦ inr (record {
                request = r;
                secret = record {
                  name = git_name r;
                  kind = git_kind;
                  attributes = git_attrs r;
                  value = r.password;
                  created = 0;
                  updated = 0;
                };
                parsed = parsed;
                has_password = password;
                value = refl;
                is = ground arith;
                from =
                    let (ss, listed, nothing) = unmatched st r m in
                    inl (ss, listed, nothing, refl, refl, refl);
              })
              | inr (choice (ambiguous names), m) ↦ inl (ground arith)
              | inr (daemon e, m) ↦ inl (ground arith)
            ]
      ]
    ]
  ]
