-- ===== src/Policy/Eval.antt =====
-- src/eitohforge_sdk/core/policy_dsl/evaluate.py and `ExpressionAccessPolicy` of __init__.py. The
-- values are any Python objects, whose operators are methods of their classes: they are an argument.
pub mod Laws
use eitoh_forge.Prelude.{
  ℕ, String, ◌≡◌, Bool, true, false, not, List, [], ◌∷◌, if◌then◌else◌, str_eq,
}
use eitoh_forge.Prelude.Codes.{Text, codes, text_eq}
use eitoh_forge.Prelude.Results.{Result, ok, err, ◌>>=◌}
use eitoh_forge.Policy.{
  Const, bool, Expr, literal, ref, unary, binary, and_expr, or_expr, Kind, Token, PolicyError,
}
use eitoh_forge.Policy.Lex.{Unicode}
use eitoh_forge.Policy.Parse.{parse_expr}

-- The `PolicyEvaluationError`s, and what a method of an object raises.
pub data EvalError (X : Type 0) : Type 0 where
  empty_path : EvalError X
  unknown_root : Text → EvalError X
  bad_unary bad_binary : String → EvalError X
  raised : X → EvalError X

-- Python objects, their truth value, attributes and comparison operators. A Boolean is its own
-- truth value.
pub record Objects : Type 1 where
  pub Obj : Type 0
  pub Exn : Type 0
  pub const : Const → Obj
  pub truth : Obj → Result (EvalError Exn) Bool
  pub truth_bool : (b : Bool) → truth (const (bool b)) ≡ ok b
  pub is_mapping : Obj → Bool
  pub mapping_get : Obj → Text → Result (EvalError Exn) Obj
  pub get_attr : Obj → Text → Result (EvalError Exn) Obj
  pub eq : Obj → Obj → Result (EvalError Exn) Obj
  pub ne : Obj → Obj → Result (EvalError Exn) Obj
  pub lt : Obj → Obj → Result (EvalError Exn) Obj
  pub le : Obj → Obj → Result (EvalError Exn) Obj
  pub gt : Obj → Obj → Result (EvalError Exn) Obj
  pub ge : Obj → Obj → Result (EvalError Exn) Obj
  pub contains : Obj → Obj → Result (EvalError Exn) Bool

module _ (o : Objects) where
  open o use {Obj, Exn, const, truth, is_mapping, mapping_get, get_attr, contains}

  -- PolicyContext
  pub record PolicyContext : Type 0 where
    pub principal : Obj
    pub attributes : Obj

  unfoldable pub step_into : Obj → Text → Result (EvalError Exn) Obj
  step_into obj part = if is_mapping obj then mapping_get obj part else get_attr obj part

  -- The loop of `_resolve_ref`.
  unfoldable pub follow_path : Obj → List Text → Result (EvalError Exn) Obj
  unfolding step_into
  follow_path obj [] = ok obj
  follow_path obj (part ∷ rest) = do next ← step_into obj part; follow_path next rest

  unfoldable pub resolve_ref : List Text → PolicyContext → Result (EvalError Exn) Obj
  unfolding follow_path
  resolve_ref [] ctx = err empty_path
  resolve_ref (root ∷ rest) ctx =
      if text_eq root (codes "principal")
      then follow_path ctx.principal rest
      else if text_eq root (codes "attributes")
      then follow_path ctx.attributes rest
      else err (unknown_root root)

  -- The chain of tests in `_eval_binary`.
  unfoldable pub apply_op : String → Obj → Obj → Result (EvalError Exn) Obj
  apply_op op left right =
      if str_eq op "=="
      then o.eq left right
      else if str_eq op "!="
      then o.ne left right
      else if str_eq op "<"
      then o.lt left right
      else if str_eq op "<="
      then o.le left right
      else if str_eq op ">"
      then o.gt left right
      else if str_eq op ">="
      then o.ge left right
      else if str_eq op "in"
      then (do b ← contains right left; ok (const (bool b)))
      else if str_eq op "not_in"
      then (do b ← contains right left; ok (const (bool (not b))))
      else err (bad_binary op)

  -- The operand is evaluated only for the operator `not`.
  unfoldable pub negate : String → Result (EvalError Exn) Obj → Result (EvalError Exn) Obj
  negate op operand =
      if str_eq op "not"
      then (do v ← operand; b ← truth v; ok (const (bool (not b))))
      else err (bad_unary op)

  -- What `and` and `or` make of the truth of the left side. The right side is used in one branch.
  unfoldable pub and_then : Bool → Result (EvalError Exn) Obj → Result (EvalError Exn) Obj
  and_then true right = right
  and_then false right = ok (const (bool false))

  unfoldable pub or_else : Bool → Result (EvalError Exn) Obj → Result (EvalError Exn) Obj
  or_else true right = ok (const (bool true))
  or_else false right = right

  unfoldable pub eval_expr : Expr → PolicyContext → Result (EvalError Exn) Obj
  unfolding resolve_ref apply_op negate and_then or_else
  eval_expr (literal c) ctx = ok (const c)
  eval_expr (ref parts) ctx = resolve_ref parts ctx
  eval_expr (unary op e) ctx = negate op (eval_expr e ctx)
  eval_expr (and_expr l r) ctx = do v ← eval_expr l ctx; b ← truth v; and_then b (eval_expr r ctx)
  eval_expr (or_expr l r) ctx = do v ← eval_expr l ctx; b ← truth v; or_else b (eval_expr r ctx)
  eval_expr (binary l op r) ctx = do
    left ← eval_expr l ctx
    right ← eval_expr r ctx
    apply_op op left right

  -- ExpressionAccessPolicy.evaluate
  unfoldable pub evaluate : Expr → PolicyContext → Result (EvalError Exn) Bool
  unfolding eval_expr
  evaluate e ctx = do v ← eval_expr e ctx; truth v
