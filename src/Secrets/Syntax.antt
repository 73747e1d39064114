-- ===== src/Secrets/Syntax.antt =====
-- The arguments, the attributes and the value as cmd/keycell/secrets.go takes them apart.
use keycell.Client.Exit.{Exit, misuse, one_name, bad_attribute, repeated_attribute}
use keycell.Prelude.{
  ℕ, Bool, false, List, [], ◌∷◌, ◌++◌, map, none, some, Result, ok, err, if◌then◌else◌, ◌==◌,
}
use keycell.Prelude.Bytes.{Bytes, cut}
use keycell.Prelude.Maps.{Map, lookup, insert}
use keycell.Prelude.Text.{sort_strings}

-- The loop of parseAttrs: `attrs` is the map so far.
unfoldable pub parse_pairs : Map Bytes → List Bytes → Result Exit (Map Bytes)
parse_pairs attrs [] = ok attrs
parse_pairs attrs (p ∷ ps) = elim (cut b'=' p) [
  | none ↦ err (misuse (bad_attribute p))
  | some (k, v) ↦ elim (lookup k attrs) [
    | some _ ↦ err (misuse (repeated_attribute k))
    | none ↦ parse_pairs (insert k v attrs) ps
  ]
]

-- parseAttrs
unfoldable pub parse_attrs : List Bytes → Result Exit (Map Bytes)
unfolding parse_pairs
parse_attrs ps = parse_pairs [] ps

-- k + "=" + v
abbrev pub pair_of : Bytes × Bytes → Bytes
pair_of e = e.0 ++ b'=' ∷ e.1

-- strings.Join
unfoldable join_with : ℕ → List Bytes → Bytes
join_with sep [] = []
join_with sep (x ∷ []) = x
join_with sep (x ∷ y ∷ ys) = x ++ sep ∷ join_with sep (y ∷ ys)

value_at : Map Bytes → Bytes → Bytes
value_at attrs k = elim (lookup k attrs) [ none ↦ [] | some v ↦ v ]

abbrev key_of : Bytes × Bytes → Bytes
key_of e = e.0

-- formatAttrs
unfoldable pub format_attrs : Map Bytes → Bytes
unfolding join_with value_at
format_attrs attrs =
    join_with b',' (map (λ k. pair_of (k, value_at attrs k)) (sort_strings (map key_of attrs)))

-- bytes.TrimSuffix(b, "\n")
unfoldable pub trim_newline : Bytes → Bytes
trim_newline [] = []
trim_newline (c ∷ []) = if c == b'\n' then [] else c ∷ []
trim_newline (c ∷ d ∷ s) = c ∷ trim_newline (d ∷ s)

unfoldable pub ends_in_newline : Bytes → Bool
ends_in_newline [] = false
ends_in_newline (c ∷ []) = c == b'\n'
ends_in_newline (c ∷ d ∷ s) = ends_in_newline (d ∷ s)

-- oneArg
unfoldable pub one_arg : List Bytes → Result Exit Bytes
one_arg (n ∷ []) = ok n
one_arg args = err (misuse one_name)
