-- ===== src/Calc/Meaning.antt =====
-- `Eval` against a big-step description of arithmetic.
use ringpop_common.Common.{
  ◌≡◌, refl, ◌↔◌, inl, inr, Option, some, arith, Bool-cases, Option-cases, Bytes, codes, bytes_eq,
  bytes_eq_iff,
}
use ringpop_common.Float.{Float64}
use ringpop_common.Outcome.{
  ok, bind-eq-ok, ReturnsOrPanics, bind-ReturnsOrPanics, IsResult, recovered-IsResult,
  recovered-eq-ok,
}
use ringpop_common.Calc.{Expr, paren, binary, basic_lit, other, apply_op, eval, eval_text}

module _ {F : Type 0} (fl : Float64 F) where
  -- the meaning of an operator sign
  pub data Operator : Bytes → (F → F → F) → Type 0 where
    times : Operator (codes "*") fl.mul
    over : Operator (codes "/") fl.div
    plus : Operator (codes "+") fl.add
    minus : Operator (codes "-") fl.sub

  -- `e` is an arithmetic expression and denotes `v`
  pub data Denotes : Expr → F → Type 0 where
    group : {e : Expr} {v : F} → Denotes e v → Denotes (paren e) v
    operate :
        {op : Bytes} {f : F → F → F} {l r : Expr} {x y : F}
        → Operator op f
        → Denotes l x
        → Denotes r y
        → Denotes (binary op l r) (f x y)
    literal : {text : Bytes} {v : F} → fl.parse_float text ≡ some v → Denotes (basic_lit text) v

  apply_op-Operator :
      {op : Bytes} {f : F → F → F} (x y : F) → Operator op f → apply_op fl op x y ≡ ok (f x y)
  unfolding apply_op bytes_eq
  apply_op-Operator x y times = refl
  apply_op-Operator x y over = refl
  apply_op-Operator x y plus = refl
  apply_op-Operator x y minus = refl

  eval-Denotes : {e : Expr} {v : F} → Denotes e v → eval fl e ≡ ok v
  unfolding eval
  eval-Denotes (group d) = eval-Denotes d
  eval-Denotes (operate {x} {y} o l r) =
      rw (eval-Denotes l, eval-Denotes r) (apply_op-Operator x y o)
  eval-Denotes (literal h) = rw h

  Operator-apply_op :
      (op : Bytes) (x y v : F)
      → apply_op fl op x y ≡ ok v
      → (f : F → F → F) × Operator op f × (v ≡ f x y)
  unfolding apply_op
  Operator-apply_op op x y v h = elim (Bool-cases (bytes_eq op (codes "*"))) [
    | inl e ↦ (fl.mul, rw ((bytes_eq_iff op (codes "*")).0 e) times, ground arith)
    | inr n1 ↦ elim (Bool-cases (bytes_eq op (codes "/"))) [
      | inl e ↦ (fl.div, rw ((bytes_eq_iff op (codes "/")).0 e) over, ground arith)
      | inr n2 ↦ elim (Bool-cases (bytes_eq op (codes "+"))) [
        | inl e ↦ (fl.add, rw ((bytes_eq_iff op (codes "+")).0 e) plus, ground arith)
        | inr n3 ↦ elim (Bool-cases (bytes_eq op (codes "-"))) [
          | inl e ↦ (fl.sub, rw ((bytes_eq_iff op (codes "-")).0 e) minus, ground arith)
          | inr n4 ↦ absurd (ground arith)
        ]
      ]
    ]
  ]

  Denotes-binary :
      (op : Bytes) (l r : Expr) {x y v : F}
      → Denotes l x
      → Denotes r y
      → ((f : F → F → F) × Operator op f × (v ≡ f x y))
      → Denotes (binary op l r) v
  Denotes-binary op l r dl dr (f, o, e) = rw e (operate o dl dr)

  Denotes-eval : (e : Expr) {v : F} → eval fl e ≡ ok v → Denotes e v
  unfolding eval
  Denotes-eval (paren e) h = group (Denotes-eval e h)
  Denotes-eval (binary op l r) {v} h =
      let (x, hx, h') = bind-eq-ok (eval fl l) _ h in
      let (y, hy, h'') = bind-eq-ok (eval fl r) (apply_op fl op x) h' in
      Denotes-binary op l r (Denotes-eval l hx) (Denotes-eval r hy) (Operator-apply_op op x y v h'')
  Denotes-eval (basic_lit text) h = literal (ground arith)
  Denotes-eval (other name) h = cc

  -- The evaluator returns a value exactly for an arithmetic expression, and it is the one denoted.
  eval_iff : (e : Expr) (v : F) → (eval fl e ≡ ok v) ↔ Denotes e v
  eval_iff e v = (Denotes-eval e, eval-Denotes)

  eval-ReturnsOrPanics : (e : Expr) → ReturnsOrPanics (eval fl e)
  unfolding eval apply_op
  eval-ReturnsOrPanics (paren e) = eval-ReturnsOrPanics e
  eval-ReturnsOrPanics (binary op l r) =
      bind-ReturnsOrPanics (eval fl l) _ (eval-ReturnsOrPanics l)
        (λ x. bind-ReturnsOrPanics (eval fl r) _ (eval-ReturnsOrPanics r) (λ y. ground arith))
  eval-ReturnsOrPanics (basic_lit text) = ground arith
  eval-ReturnsOrPanics (other name) = tt

module _ {F : Type 0} (fl : Float64 F) (parse_expr : Bytes → Option Expr) where
  pub eval_text-IsResult : (text : Bytes) → IsResult (eval_text fl parse_expr text)
  unfolding eval_text
  eval_text-IsResult text = elim (Option-cases (parse_expr text)) [
    | inl h ↦ rw h tt
    | inr (e, h) ↦ rw h (recovered-IsResult (eval fl e) (eval-ReturnsOrPanics fl e))
  ]

  -- `Eval` never panics; it returns a value exactly where the text parses to an arithmetic
  -- expression, and then the value that the expression denotes.
  pub eval_text_iff :
      (text : Bytes) (v : F)
      → IsResult (eval_text fl parse_expr text)
        × ((eval_text fl parse_expr text ≡ ok v)
            ↔ ((e : Expr) × (parse_expr text ≡ some e) × Denotes fl e v))
  unfolding eval_text
  eval_text_iff text v = (eval_text-IsResult text, (finds, gives))
    where
      finds :
          eval_text fl parse_expr text ≡ ok v
          → (e : Expr) × (parse_expr text ≡ some e) × Denotes fl e v
      finds h = elim (Option-cases (parse_expr text)) [
        | inl n ↦ cc (rw n at h)
        | inr (e, p) ↦ (e, p, Denotes-eval fl e (recovered-eq-ok (eval fl e) (rw p at h)))
      ]

      gives :
          ((e : Expr) × (parse_expr text ≡ some e) × Denotes fl e v)
          → eval_text fl parse_expr text ≡ ok v
      gives (e, p, d) = rw p (rw (eval-Denotes fl d))
