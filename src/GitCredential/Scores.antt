-- ===== src/GitCredential/Scores.antt =====
-- What gitScore accepts and counts, and the secret that the helper creates.
use keycell.Client.{Secret}
use keycell.GitCredential.{
  GitRequest, git_kind, git_score, score_fields, compared, git_attrs, git_name,
}
use keycell.Prelude.{
  ℕ, ◌+◌, ◌≡◌, ◌⊎◌, inl, inr, refl, arith, Option, none, some, List, [], ◌∷◌, Bool, true, false,
  Bool-cases, Option-cases, All, if◌then◌else◌, ◌∙◌, not, ap,
}
use keycell.Prelude.Bytes.{Bytes, text, equal, equal_iff, equal→eq, or_empty}
use keycell.Prelude.Maps.{Map, lookup, insert}

-- A field that the secret does not set or the request does not send, or that is the same in both.
abbrev pub Agrees : Map Bytes → Bytes × Bytes → Type 0
Agrees attrs f = (lookup f.0 attrs ≡ none) ⊎ (f.1 ≡ []) ⊎ (lookup f.0 attrs ≡ some f.1)

abbrev count_one : Option Bytes → ℕ
count_one none = 0
count_one (some v) = 1

-- How many of the fields a secret sets.
unfoldable pub set_fields : Map Bytes → List (Bytes × Bytes) → ℕ
set_fields attrs [] = 0
set_fields attrs (f ∷ fs) = count_one (lookup f.0 attrs) + set_fields attrs fs

pub record Serves (s : Secret) (r : GitRequest) : Type 0 where
  pub kind : s.kind ≡ git_kind
  pub host : or_empty (lookup (text "host") s.attributes) ≡ r.host
  pub fields : All (Agrees s.attributes) (compared r)

score_fields-set_fields :
    (attrs : Map Bytes) (fs : List (Bytes × Bytes)) (n : ℕ)
    → All (Agrees attrs) fs
    → score_fields attrs fs n ≡ some (n + set_fields attrs fs)
unfolding score_fields set_fields
score_fields-set_fields attrs [] n h = ground arith
score_fields-set_fields attrs ((k, want) ∷ fs) n h = elim (Option-cases (lookup k attrs)) [
  | inl e ↦ ground (arith, score_fields-set_fields attrs fs n h.1)
  | inr (v, e) ↦
      ground
        (arith, score_fields-set_fields attrs fs (n + 1) h.1, equal_iff want [], equal_iff v want)
]

score_fields-Agrees :
    (attrs : Map Bytes) (fs : List (Bytes × Bytes)) (n k : ℕ)
    → score_fields attrs fs n ≡ some k
    → All (Agrees attrs) fs
unfolding score_fields
score_fields-Agrees attrs [] n k h = tt
score_fields-Agrees attrs ((a, want) ∷ fs) n k h = elim (Option-cases (lookup a attrs)) [
  | inl e ↦ (inl e, score_fields-Agrees attrs fs n k (ground arith))
  | inr (v, e) ↦ (agreed v e, score_fields-Agrees attrs fs (n + 1) k (ground arith))
]
  where
    agreed : (v : Bytes) → lookup a attrs ≡ some v → Agrees attrs (a, want)
    agreed v e = elim (Bool-cases (equal want [])) [
      | inl x ↦ inr (inl (equal→eq want [] x))
      | inr x ↦ elim (Bool-cases (equal v want)) [
        | inl y ↦ inr (inr (e ∙ ap some (equal→eq v want y)))
        | inr y ↦ absurd (ground arith)
      ]
    ]

-- The score of a secret that serves the request.
pub git_score-set_fields :
    (s : Secret) (r : GitRequest)
    → Serves s r
    → git_score s r ≡ some (set_fields s.attributes (compared r))
unfolding git_score
git_score-set_fields s r h = ground (
  arith,
  equal_iff s.kind git_kind,
  h.host,
  equal_iff (or_empty (lookup (text "host") s.attributes)) r.host,
  score_fields-set_fields s.attributes (compared r) 0 h.fields,
)

-- A secret that has a score serves the request.
pub git_score-Serves : (s : Secret) (r : GitRequest) (n : ℕ) → git_score s r ≡ some n → Serves s r
unfolding git_score
git_score-Serves s r n h = record {
  kind = ground (arith, equal_iff s.kind git_kind);
  host = ground (arith, equal_iff (or_empty (lookup (text "host") s.attributes)) r.host);
  fields = score_fields-Agrees s.attributes (compared r) 0 n (ground arith);
}

-- gitScore accepts a secret exactly when its kind and host are right and each of protocol,
-- username and path is unset in one of the two or equal; the score is then the number of those
-- that the secret sets.
git_score_iff :
    (s : Secret) (r : GitRequest)
    → (Serves s r → git_score s r ≡ some (set_fields s.attributes (compared r)))
      × ((n : ℕ) → git_score s r ≡ some n → Serves s r)
git_score_iff s r = (git_score-set_fields s r, git_score-Serves s r)

-- The secret that the helper creates for a request.
abbrev pub created : GitRequest → Bytes → Secret
created r value = record {
  name = git_name r;
  kind = git_kind;
  attributes = git_attrs r;
  value = value;
  created = 0;
  updated = 0;
}

-- The attributes that the helper gives a new secret: the host, and each field that was sent.
git_attrs_fields :
    (r : GitRequest)
    → (lookup (text "host") (git_attrs r) ≡ some r.host)
      × (lookup (text "protocol") (git_attrs r)
          ≡ (if equal r.protocol [] then none else some r.protocol))
      × (lookup (text "username") (git_attrs r)
          ≡ (if equal r.username [] then none else some r.username))
      × (lookup (text "path") (git_attrs r) ≡ (if equal r.path [] then none else some r.path))
unfolding git_attrs lookup insert equal
git_attrs_fields r = split (equal r.protocol []) (equal r.username []) (equal r.path [])
  where
    attr : Bool → Bytes → Bytes → Map Bytes → Map Bytes
    attr e k v m = if not e then insert k v m else m

    of : Bool → Bool → Bool → Map Bytes
    of p u q = attr q (text "path") r.path (
        attr u (text "username") r.username
          (attr p (text "protocol") r.protocol ((text "host", r.host) ∷ [])))

    split :
        (p u q : Bool)
        → (lookup (text "host") (of p u q) ≡ some r.host)
          × (lookup (text "protocol") (of p u q) ≡ (if p then none else some r.protocol))
          × (lookup (text "username") (of p u q) ≡ (if u then none else some r.username))
          × (lookup (text "path") (of p u q) ≡ (if q then none else some r.path))
    split true true true = (refl, refl, refl, refl)
    split true true false = (refl, refl, refl, refl)
    split true false true = (refl, refl, refl, refl)
    split true false false = (refl, refl, refl, refl)
    split false true true = (refl, refl, refl, refl)
    split false true false = (refl, refl, refl, refl)
    split false false true = (refl, refl, refl, refl)
    split false false false = (refl, refl, refl, refl)

sent-Agrees :
    (k v : Bytes) (m : Map Bytes)
    → lookup k m ≡ (if equal v [] then none else some v)
    → Agrees m (k, v)
sent-Agrees k v m e = elim (Bool-cases (equal v [])) [
  | inl x ↦ inl (rw x at e)
  | inr x ↦ inr (inr (rw x at e))
]

-- A secret that the helper created for a request serves that request again.
created-Serves : (r : GitRequest) (value : Bytes) → Serves (created r value) r
created-Serves r value =
    let (h, p, u, q) = git_attrs_fields r in
    record {
      kind = refl;
      host = ap or_empty h;
      fields = (sent-Agrees _ _ _ p, (sent-Agrees _ _ _ u, (sent-Agrees _ _ _ q, tt)));
    }
