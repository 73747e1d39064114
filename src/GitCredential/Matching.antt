-- ===== src/GitCredential/Matching.antt =====
-- The choice of matchGitCredential, and what gitScore counts.
use keycell.Client.{Secret}
use keycell.GitCredential.{
  GitRequest, git_score, Best, consider, consider_all, choose, match_git_credential, MatchError,
  no_match,
}
use mathlib.Core.Path.{subst}
use keycell.Prelude.{
  ℕ, ◌≤◌, ◌<◌, ◌≡◌, ◌≢◌, inl, inr, refl, arith, Option, none, some, Result, err, List, [], ◌∷◌,
  ◌++◌, Bool-cases, Option-cases, All, ◌==◌, if◌then◌else◌, append-nil, append_assoc, ◌∙◌, sym, ap,
  ltb, All-map,
}

-- The candidates with a given score, in their order.
unfoldable pub with_score : GitRequest → ℕ → List Secret → List Secret
with_score r m [] = []
with_score r m (s ∷ ss) =
    let rest = with_score r m ss in
    elim (git_score s r) [ none ↦ rest | some n ↦ if n == m then s ∷ rest else rest ]

abbrev pub IsBelow : ℕ → Option ℕ → Type 0
IsBelow m none = Unit
IsBelow m (some n) = n ≤ m

-- The best score among candidates: none if none matches.
abbrev pub IsBest : GitRequest → Option ℕ → List Secret → Type 0
IsBest r none ss = All (λ (s : Secret). git_score s r ≡ none) ss
IsBest r (some m) ss = All (λ (s : Secret). IsBelow m (git_score s r)) ss

abbrev Holds : GitRequest → Option ℕ → List Secret → List Secret → Type 0
Holds r none best seen = (best ≡ []) × IsBest r none seen
Holds r (some m) best seen = (best ≡ with_score r m seen) × (best ≢ []) × IsBest r (some m) seen

All-snoc :
    (P : Secret → Type 0) (xs : List Secret) (x : Secret) → All P xs → P x → All P (xs ++ x ∷ [])
All-snoc P [] x h p = (p, tt)
All-snoc P (y ∷ ys) x h p = (h.0, All-snoc P ys x h.1 p)

with_score-append :
    (r : GitRequest) (m : ℕ) (xs ys : List Secret)
    → with_score r m (xs ++ ys) ≡ with_score r m xs ++ with_score r m ys
unfolding with_score
with_score-append r m [] ys = refl
with_score-append r m (x ∷ xs) ys = ground (arith, with_score-append r m xs ys)

with_score-none :
    (r : GitRequest) (m : ℕ) (xs : List Secret) → IsBest r none xs → with_score r m xs ≡ []
unfolding with_score
with_score-none r m [] h = refl
with_score-none r m (x ∷ xs) h = ground (arith, with_score-none r m xs h.1)

with_score-above :
    (r : GitRequest) (m n : ℕ) (xs : List Secret)
    → m < n
    → IsBest r (some m) xs
    → with_score r n xs ≡ []
unfolding with_score
with_score-above r m n [] l h = refl
with_score-above r m n (x ∷ xs) l h = ground (arith, with_score-above r m n xs l h.1)

IsBelow-mono : (m n : ℕ) (o : Option ℕ) → m ≤ n → IsBelow m o → IsBelow n o
IsBelow-mono m n none l h = tt
IsBelow-mono m n (some k) l h = omega arith

snoc-ne : (xs : List Secret) (x : Secret) → (xs ++ x ∷ []) ≢ []
snoc-ne [] x e = cc
snoc-ne (y ∷ ys) x e = cc

-- A candidate that does not match changes nothing.
skip-Holds :
    (r : GitRequest) (o : Option ℕ) (best seen : List Secret) (s : Secret)
    → git_score s r ≡ none
    → Holds r o best seen
    → Holds r o best (seen ++ s ∷ [])
unfolding with_score
skip-Holds r none best seen s e h = (h.0, All-snoc _ seen s h.1 e)
skip-Holds r (some m) best seen s e h =
    let alone : with_score r m (s ∷ []) ≡ [] = ground arith in
    (
      h.0 ∙ sym (with_score-append r m seen (s ∷ []) ∙ rw (alone, append-nil)),
      h.1,
      All-snoc _ seen s h.2 (rw e tt),
    )

-- A candidate that scores n.
first-Holds :
    (r : GitRequest) (n : ℕ) (seen : List Secret) (s : Secret)
    → git_score s r ≡ some n
    → with_score r n seen ≡ []
    → IsBest r (some n) seen
    → Holds r (some n) (s ∷ []) (seen ++ s ∷ [])
unfolding with_score
first-Holds r n seen s e nothing h =
    let alone : with_score r n (s ∷ []) ≡ s ∷ [] = ground arith in
    (
      sym (with_score-append r n seen (s ∷ []) ∙ rw (nothing, alone)),
      (λ x. cc),
      All-snoc _ seen s h (rw e (omega arith)),
    )

-- A candidate that scores as the best so far.
tie-Holds :
    (r : GitRequest) (m : ℕ) (best seen : List Secret) (s : Secret)
    → git_score s r ≡ some m
    → Holds r (some m) best seen
    → Holds r (some m) (best ++ s ∷ []) (seen ++ s ∷ [])
unfolding with_score
tie-Holds r m best seen s e h =
    let alone : with_score r m (s ∷ []) ≡ s ∷ [] = ground arith in
    (
      ap (λ xs. xs ++ s ∷ []) h.0 ∙ sym (with_score-append r m seen (s ∷ []) ∙ rw alone),
      snoc-ne best s,
      All-snoc _ seen s h.2 (rw e (omega arith)),
    )

-- A candidate that scores less.
less-Holds :
    (r : GitRequest) (m n : ℕ) (best seen : List Secret) (s : Secret)
    → git_score s r ≡ some n
    → n < m
    → Holds r (some m) best seen
    → Holds r (some m) best (seen ++ s ∷ [])
unfolding with_score
less-Holds r m n best seen s e l h =
    let alone : with_score r m (s ∷ []) ≡ [] = ground arith in
    (
      h.0 ∙ sym (with_score-append r m seen (s ∷ []) ∙ rw (alone, append-nil)),
      h.1,
      All-snoc _ seen s h.2 (rw e (omega arith)),
    )

abbrev HoldsAt : GitRequest → Best → List Secret → Type 0
HoldsAt r b seen = Holds r b.score b.secrets seen

consider-Holds :
    (r : GitRequest) (o : Option ℕ) (best seen : List Secret) (s : Secret)
    → Holds r o best seen
    → HoldsAt r (consider r (record { score = o; secrets = best }) s) (seen ++ s ∷ [])
unfolding consider
consider-Holds r none best seen s h = elim (Option-cases (git_score s r)) [
  | inl e ↦ rw (e, consider) (skip-Holds r none best seen s e h)
  | inr (n, e) ↦
      rw (e, consider)
        (first-Holds r n seen s e (with_score-none r n seen h.1)
          (All-map _ _ seen (λ t x. rw x tt) h.1))
]
consider-Holds r (some m) best seen s h = elim (Option-cases (git_score s r)) [
  | inl e ↦ rw (e, consider) (skip-Holds r (some m) best seen s e h)
  | inr (n, e) ↦ elim (Bool-cases (ltb m n)) [
    | inl above ↦
        let l : m < n = ground arith in
        rw (e, consider, above)
          (first-Holds r n seen s e (with_score-above r m n seen l h.2)
            (All-map _ _ seen (λ t x. IsBelow-mono m n _ (omega arith) x) h.2))
    | inr below ↦ elim (Bool-cases (n == m)) [
      | inl same ↦
          let q : git_score s r ≡ some m = ground arith in
          rw (e, consider, below, same) (tie-Holds r m best seen s q h)
      | inr other ↦ rw (e, consider, below, other) (less-Holds r m n best seen s e (ground arith) h)
    ]
  ]
]

consider_all-Holds :
    (r : GitRequest) (b : Best) (seen ss : List Secret)
    → HoldsAt r b seen
    → HoldsAt r (consider_all r b ss) (seen ++ ss)
unfolding consider_all
consider_all-Holds r b seen [] h = rw append-nil h
consider_all-Holds r b seen (s ∷ ss) h =
    let step = consider-Holds r b.score b.secrets seen s h in
    let all = consider_all-Holds r (consider r b s) (seen ++ s ∷ []) ss step in
    subst (HoldsAt r (consider_all r (consider r b s) ss)) (append_assoc seen (s ∷ []) ss) all

-- What a helper answers, from the best score and the candidates that have it.
abbrev pub answer : GitRequest → Option ℕ → List Secret → Result MatchError Secret
answer r none ss = err no_match
answer r (some m) ss = choose (with_score r m ss)

-- A score that some candidate has, if there is one.
abbrev pub IsAttained : GitRequest → Option ℕ → List Secret → Type 0
IsAttained r none ss = Unit
IsAttained r (some m) ss = with_score r m ss ≢ []

-- What matchGitCredential answers.
pub record Matched (ss : List Secret) (r : GitRequest) : Type 0 where
  pub score : Option ℕ
  pub best : IsBest r score ss
  pub attained : IsAttained r score ss
  pub is : match_git_credential ss r ≡ answer r score ss

pub match_git_credential-IsBest : (ss : List Secret) (r : GitRequest) → Matched ss r
unfolding match_git_credential choose
match_git_credential-IsBest ss r =
    let b : Best = consider_all r (record { score = none; secrets = [] }) ss in
    let h : HoldsAt r b ss =
      consider_all-Holds r (record { score = none; secrets = [] }) [] ss (refl, tt) in
    by_score b.score b.secrets h refl
  where
    by_score :
        (o : Option ℕ) (best : List Secret)
        → Holds r o best ss
        → choose (consider_all r (record { score = none; secrets = [] }) ss).secrets ≡ choose best
        → Matched ss r
    by_score none best h e = record { score = none; best = h.1; attained = tt; is = e ∙ rw h.0 }
    by_score (some m) best h e = record {
      score = some m;
      best = h.2;
      attained = λ q. h.1 (h.0 ∙ q);
      is = e ∙ ap choose h.0;
    }
