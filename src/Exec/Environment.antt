-- ===== src/Exec/Environment.antt =====
-- What the environment of the started command holds.
use keycell.Client.{Api, Secret}
use keycell.Exec.{
  EnvEntry, Miss, Stop, key, is_mapped, unmapped, merge_env, assignment, miss_of, fetch,
  resolve_env,
}
use mathlib.Core.Path.{subst}
use keycell.Prelude.{
  ◌≡◌, ◌≢◌, inl, inr, refl, arith, Option, none, some, Result, ok, Result-cases, List, [], ◌∷◌,
  ◌++◌, append_assoc, append-nil, true, false, Bool-cases, All, if◌then◌else◌, ◌∙◌, sym,
}
use keycell.Prelude.Bytes.{Bytes, equal, equal_iff}

-- What a program reads for a variable: the first entry of that name.
unfoldable pub value_of : Bytes → List Bytes → Option Bytes
value_of k [] = none
value_of k (kv ∷ env) = let rest = value_of k env in if equal (key kv) k then some kv else rest

-- Every secret of the list is for a variable of the mapping.
abbrev pub AreMapped : List EnvEntry → List Bytes → Type 0
AreMapped m secrets = All (λ (kv : Bytes). is_mapped (key kv) m ≡ true) secrets

value_of-none :
    (k : Bytes) (m : List EnvEntry) (secrets : List Bytes)
    → AreMapped m secrets
    → is_mapped k m ≡ false
    → value_of k secrets ≡ none
unfolding value_of
value_of-none k m [] h e = refl
value_of-none k m (kv ∷ secrets) h e = elim (Bool-cases (equal (key kv) k)) [
  | inl same ↦ absurd (cc ((equal_iff (key kv) k).0 same, h.0, e))
  | inr other ↦ rw other (value_of-none k m secrets h.1 e)
]

-- When every secret is for a variable of the mapping, the command sees a variable of the mapping
-- as its secret, and any other as it stands in the environment of keycell.
pub merge_env-value :
    (k : Bytes) (base : List Bytes) (m : List EnvEntry) (secrets : List Bytes)
    → AreMapped m secrets
    → value_of k (merge_env base m secrets)
      ≡ (if is_mapped k m then value_of k secrets else value_of k base)
unfolding merge_env unmapped value_of
merge_env-value k [] m secrets h = elim (Bool-cases (is_mapped k m)) [
  | inl e ↦ rw e refl
  | inr e ↦ rw e (value_of-none k m secrets h e)
]
merge_env-value k (kv ∷ base) m secrets h =
    ground (arith, equal_iff (key kv) k, merge_env-value k base m secrets h)

abbrev fine : List Bytes → Result Stop (List Bytes)
fine x = ok x

is_out : (x y : List Bytes) → fine x ≡ fine y → y ≡ x
is_out x y h = cc

append-snoc : (ms : List Miss) (m : Miss) → (ms ++ m ∷ []) ≢ []
append-snoc [] m e = cc
append-snoc (x ∷ ms) m e = cc

module _ {S : Type 0} (api : Api S) where
  -- Every name of the mapping was read, and the entries stand in the order of the mapping.
  abbrev pub Fetched : S → List EnvEntry → List Bytes → Type 0
  Fetched st [] [] = Unit
  Fetched st [] (b ∷ bs) = ⊥
  Fetched st (e ∷ es) [] = ⊥
  Fetched st (e ∷ es) (b ∷ bs) =
      ((s : Secret) × (api.get st e.name ≡ ok s) × (b ≡ assignment e s)) × Fetched st es bs

  fetch-Fetched :
      (st : S) (es : List EnvEntry) (env out : List Bytes) (ms : List Miss)
      → fetch api st es env ms ≡ ok out
      → (ms ≡ []) × (more : List Bytes) × (out ≡ env ++ more) × Fetched st es more
  unfolding fetch
  fetch-Fetched st [] env out [] h = (refl, [], is_out env out h ∙ sym (append-nil env), tt)
  fetch-Fetched st [] env out (m ∷ ms) h = absurd (cc)
  fetch-Fetched st (e ∷ es) env out ms h = elim (Result-cases (api.get st e.name)) [
    | inl (s, got) ↦
        let (none_missing, more, is, rest) =
          fetch-Fetched st es (env ++ assignment e s ∷ []) out ms (ground arith) in
        (
          none_missing,
          assignment e s ∷ more,
          is ∙ append_assoc env (assignment e s ∷ []) more,
          ((s, got, refl), rest),
        )
    | inr (f, bad) ↦ elim (Result-cases (miss_of api e f)) [
      | inr (stop, d) ↦ absurd (ground arith)
      | inl (m, d) ↦
          let (none_missing, more, is, rest) =
            fetch-Fetched st es env out (ms ++ m ∷ []) (ground arith) in
          absurd (append-snoc ms m none_missing)
    ]
  ]

  -- When resolveEnv gives an environment, the daemon gave a value for every name of the mapping,
  -- and the environment has one entry VAR=value for each, in the order of the mapping.
  pub resolve_env-Fetched :
      (st : S) (es : List EnvEntry) (out : List Bytes)
      → resolve_env api st es ≡ ok out
      → Fetched st es out
  unfolding resolve_env
  resolve_env-Fetched st [] [] h = tt
  resolve_env-Fetched st [] (b ∷ bs) h = absurd (cc)
  resolve_env-Fetched st (e ∷ es) out h = elim (Result-cases (api.connect st)) [
    | inr (f, down) ↦ absurd (ground arith)
    | inl (u, up) ↦
        let (_, more, is, rest) = fetch-Fetched st (e ∷ es) [] out [] (ground arith) in
        subst (Fetched st (e ∷ es)) (sym is) rest
  ]
