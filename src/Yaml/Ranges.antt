-- ===== src/Yaml/Ranges.antt =====
-- `parseRange` of test_yaml_parser.go on a range as it stands in a test file.
use ringpop_common.Common.{
  ℕ, suc, ◌-◌, ◌≡◌, refl, Option, some, [], ◌∷◌, ◌++◌, arith, if◌then◌else◌, Bytes, length,
  get_elem?, length-append, take-append, Lacks,
}
use ringpop_common.Common.Int.{ℤ}
use ringpop_common.Float.{Float64}
use ringpop_common.Calc.{Expr}
use ringpop_common.Value.{type_of, same_kind}
use ringpop_common.Outcome.{in_range, types_differ, ok, panic, ◌>>=◌, wrap_panic}
use ringpop_common.Text.{split}
use ringpop_common.Yaml

get_elem?-last : (xs : Bytes) (c : ℕ) → get_elem? (xs ++ (c ∷ [])) (length xs) ≡ some c
get_elem?-last [] c = refl
get_elem?-last (x ∷ xs) c = get_elem?-last xs c

split-Lacks : (c : ℕ) (s : Bytes) → Lacks c s → split s c ≡ s ∷ []
unfolding split
split-Lacks c [] h = refl
split-Lacks c (x ∷ s) (hx, h) = rw (split-Lacks c s h) (ground arith)

split-append : (c : ℕ) (s t : Bytes) → Lacks c s → split (s ++ (c ∷ t)) c ≡ s ∷ split t c
unfolding split
split-append c [] t h = ground arith
split-append c (x ∷ s) t (hx, h) = rw (split-append c s t h) (ground arith)

-- A text in parentheses.
abbrev pub enclosed : Bytes → Bytes
enclosed body = b'(' ∷ (body ++ (b')' ∷ []))

at-last : (body : Bytes) → Yaml.at (enclosed body) (length (enclosed body) - 1) ≡ ok b')'
at-last body =
    let here : length (enclosed body) - 1 ≡ suc (length body) =
      omega (arith, length-append body (b')' ∷ [])) in
    rw here (rw (Yaml.at, get_elem?-last body b')'))

inner-enclosed : (body : Bytes) → Yaml.inner (enclosed body) ≡ body
inner-enclosed body =
    let here : length (enclosed body) - 2 ≡ length body =
      omega (arith, length-append body (b')' ∷ [])) in
    rw here (take-append body (b')' ∷ []))

module _ {F : Type 0} (fl : Float64 F) (parse_expr : Bytes → Option Expr)
    (parse_duration : Bytes → Option ℤ) where
  -- `parseRange` of two texts without commas, with a comma between them and in parentheses, parses the
  -- one and then the other as values and gives both, if they are two numbers or two durations; what
  -- goes wrong with them is a panic in the context of the range.
  pub parse_range-enclosed :
      (a b : Bytes)
      → Lacks b',' a
      → Lacks b',' b
      → Yaml.parse_range fl parse_expr parse_duration (enclosed (a ++ (b',' ∷ b)))
        ≡ wrap_panic (in_range (enclosed (a ++ (b',' ∷ b)))) (
            Yaml.parse_value fl parse_expr parse_duration a >>= λ v1.
            Yaml.parse_value fl parse_expr parse_duration b >>= λ v2.
            if same_kind (type_of v1) (type_of v2) then ok (v1, v2) else panic types_differ)
  unfolding Yaml.parse_range Yaml.range_values
  parse_range-enclosed a b ha hb = rw (at-last (a ++ (b',' ∷ b))) (
      rw (inner-enclosed (a ++ (b',' ∷ b)))
        (rw (split-append b',' a b ha, split-Lacks b',' b hb) refl))
