-- ===== src/Calc.antt =====
-- cluster-test/test-orchestrator/calc.go: the calculator of the test files. The expression comes
-- from `parser.ParseExpr` of go/parser, which is a parameter; `Expr` has the nodes of go/ast that
-- the code tells apart, with every other node under `other` with the name of its type.
pub mod Meaning
use ringpop_common.Common.{
  ◌+◌, ◌-◌, ◌*◌, ◌/◌, Option, none, some, if◌then◌else◌, Bytes, codes, bytes_eq,
}
use ringpop_common.Float.{Float64}
use ringpop_common.Outcome.{
  eval_error, bad_literal, unhandled_expression, unsupported_operator, Outcome, ok, err, panic,
  ◌>>=◌, recovered,
}

pub data Expr : Type 0 where
  paren : Expr → Expr
  binary : Bytes → Expr → Expr → Expr
  basic_lit : Bytes → Expr
  other : Bytes → Expr

module _ {F : Type 0} (fl : Float64 F) where
  -- the switch on the operator's text
  unfoldable pub apply_op : Bytes → F → F → Outcome F
  apply_op op x y =
      if bytes_eq op (codes "*")
      then ok (fl.mul x y)
      else if bytes_eq op (codes "/")
      then ok (fl.div x y)
      else if bytes_eq op (codes "+")
      then ok (fl.add x y)
      else if bytes_eq op (codes "-")
      then ok (fl.sub x y)
      else panic (unsupported_operator op)

  literal : Bytes → Option F → Outcome F
  literal text none = panic (bad_literal text)
  literal text (some v) = ok v

  -- both operands are evaluated before the operator is looked at
  unfoldable pub eval : Expr → Outcome F
  unfolding apply_op literal
  eval (paren e) = eval e
  eval (binary op l r) = do x ← eval l; y ← eval r; apply_op op x y
  eval (basic_lit text) = literal text (fl.parse_float text)
  eval (other type_name) = panic (unhandled_expression type_name)

module _ {F : Type 0} (fl : Float64 F) (parse_expr : Bytes → Option Expr) where
  eval_parsed : Bytes → Option Expr → Outcome F
  eval_parsed text none = err (eval_error text)
  eval_parsed text (some e) = eval fl e

  unfoldable pub eval_text : Bytes → Outcome F
  unfolding eval_parsed eval
  eval_text text = recovered (eval_parsed text (parse_expr text))
