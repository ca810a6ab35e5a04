-- ===== src/Yaml/Measures.antt =====
-- cluster-test/test-orchestrator/test_yaml_parser.go, the parts of a measurement: its values, ranges and
-- assertion, and its fields.
use ringpop_common.Common.{
  ℕ, ◌+◌, ◌-◌, Bool, true, false, not, ◌||◌, Option, none, some, List, [], ◌∷◌, ltb, ◌==◌,
  if◌then◌else◌, Bytes, bytes_eq, length, get_elem?, take, drop,
}
use ringpop_common.Common.Int.{ℤ}
use ringpop_common.Float.{Float64}
use ringpop_common.Value.{Value, nil, number, duration, type_of, same_kind}
use ringpop_common.Outcome.{
  in_measure, in_assertion, in_range, in_value, index_out_of_range, slice_out_of_range,
  too_few_fields, bad_assertion_type, no_parentheses, no_comma, types_differ, not_a_value, Outcome,
  ok, err, panic, exit, timeout, ◌>>=◌, wrap_panic,
}
use ringpop_common.Calc.{Expr, eval_text}
use ringpop_common.Assertion.{Assertion, is_type, in_type}
use ringpop_common.Command.{Measurement}
use ringpop_common.Text.{join, split, fields}

-- `xs[i]`
abbrev pub at {ℓ} : {A : Type ℓ} → List A → ℕ → Outcome A
at xs i = elim (get_elem? xs i) [ none ↦ panic index_out_of_range | some x ↦ ok x ]

-- `rng[1 : len(rng)-1]`
abbrev pub inner : Bytes → Bytes
inner rng = take (length rng - 2) (drop 1 rng)

-- `s == "is" || s == "in"`
unfoldable pub is_keyword : Bytes → Bool
is_keyword s = bytes_eq s is_type || bytes_eq s in_type

unfoldable pub value_or_duration : {F : Type 0} → Outcome F → Option ℤ → Outcome (Value F)
value_or_duration (ok v) d = ok (number v)
value_or_duration (err e) none = panic not_a_value
value_or_duration (err e) (some d) = ok (duration d)
value_or_duration (panic e) d = panic e
value_or_duration (exit e) d = exit e
value_or_duration timeout d = timeout

module _ {F : Type 0} (fl : Float64 F) (parse_expr : Bytes → Option Expr)
    (parse_duration : Bytes → Option ℤ) where
  -- a number or an expression, and else a duration
  unfoldable pub parse_value : Bytes → Outcome (Value F)
  parse_value str =
      wrap_panic (in_value str)
        (value_or_duration (eval_text fl parse_expr str) (parse_duration str))

  -- behind the split at the comma
  unfoldable pub range_values : List Bytes → Outcome (Value F × Value F)
  range_values (a ∷ b ∷ []) = do
    v1 ← parse_value a
    v2 ← parse_value b
    if same_kind (type_of v1) (type_of v2) then ok (v1, v2) else panic types_differ
  range_values _ = panic no_comma

  unfoldable pub parse_range : Bytes → Outcome (Value F × Value F)
  parse_range rng = wrap_panic (in_range rng) (do
    first ← at rng 0
    last ← at rng (length rng - 1)
    if not (first == b'(') || not (last == b')')
        then panic no_parentheses
        else range_values (split (inner rng) b','))

  -- the switch on the type of the assertion
  unfoldable pub assertion_body : Bytes → Bytes → Outcome (Assertion F)
  assertion_body type_str arg =
      if bytes_eq type_str is_type
      then (do v ← parse_value arg; ok (record { kind = is_type; v1 = v; v2 = nil }))
      else if bytes_eq type_str in_type
      then (do (v1, v2) ← parse_range arg; ok (record { kind = in_type; v1 = v1; v2 = v2 }))
      else panic bad_assertion_type

  unfoldable pub parse_assertion : Bytes → Bytes → Outcome (Assertion F)
  parse_assertion type_str arg =
      wrap_panic (in_assertion type_str arg) (assertion_body type_str arg)

  -- The loop over the arguments. It ranges over the slice as it was at the start, from index `i` on,
  -- while `args` is cut at each keyword; a slice that starts behind the end of `args` panics.
  unfoldable pub search_assertion :
      ℕ
      → List Bytes
      → List Bytes
      → Option (Assertion F)
      → Outcome (List Bytes × Option (Assertion F))
  search_assertion i [] args assertion = ok (args, assertion)
  search_assertion i (s ∷ rest) args assertion = elim (is_keyword s) [
    | false ↦ search_assertion (i + 1) rest args assertion
    | true ↦ if ltb (length args) (i + 1) then panic slice_out_of_range else (do
      a ← parse_assertion s (join (drop (i + 1) args) [])
      search_assertion (i + 1) rest (take i args) (some a))
  ]

  unfoldable pub measurement_fields : List Bytes → Outcome (Measurement F)
  measurement_fields (start ∷ end ∷ quantity ∷ args) = do
    (measurement_args, assertion) ← search_assertion 0 args args none
    ok (record {
      start = start;
      end = end;
      quantity = quantity;
      args = measurement_args;
      assertion = assertion;
    })
  measurement_fields _ = panic too_few_fields

  unfoldable pub parse_measurement : Bytes → Outcome (Measurement F)
  parse_measurement str = wrap_panic (in_measure str) (measurement_fields (fields str))
