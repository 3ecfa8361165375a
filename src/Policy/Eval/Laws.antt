-- ===== src/Policy/Eval/Laws.antt =====
-- Laws of the evaluator: what a policy decides, errors included.
use eitoh_forge.Prelude.{◌≡◌, refl, ◌∙◌, Bool, true, false, not, inl, inr, if◌then◌else◌}
use eitoh_forge.Prelude.Results.{Result, ok, err, ◌>>=◌, Result-cases}
use eitoh_forge.Policy.{Expr, unary, and_expr, or_expr}
use eitoh_forge.Policy.Eval.{EvalError, Objects, PolicyContext, eval_expr, evaluate}

module _ (o : Objects) where
  open o use {Obj, Exn, truth, const, truth_bool}

  module _ (ctx : PolicyContext o) where
    -- The truth of a negation and of the connectives, from the truths of the parts.
    evaluate-not :
        (e : Expr) → evaluate o (unary "not" e) ctx ≡ (evaluate o e ctx >>= λ b. ok (not b))
    unfolding evaluate
    evaluate-not e = elim (Result-cases (eval_expr o e ctx)) [
      | inr (x, p) ↦ rw p
      | inl (v, p) ↦ elim (Result-cases (truth v)) [
        | inr (x, q) ↦ rw (p, q)
        | inl (b, q) ↦ rw (p, q) (truth_bool (not b))
      ]
    ]

    -- A conjunction decides what its left side decides if that is false or an exception, and what
    -- its right side decides if the left side is true; dually a disjunction.
    pub evaluate-connectives :
        (l r : Expr)
        → (evaluate o (and_expr l r) ctx
            ≡ (evaluate o l ctx >>= λ b. if b then evaluate o r ctx else ok false))
          × (evaluate o (or_expr l r) ctx
              ≡ (evaluate o l ctx >>= λ b. if b then ok true else evaluate o r ctx))
    unfolding evaluate
    evaluate-connectives l r = elim (Result-cases (eval_expr o l ctx)) [
      | inr (x, p) ↦ rw p (refl, refl)
      | inl (v, p) ↦ elim (Result-cases (truth v)) [
        | inr (x, q) ↦ rw (p, q) (refl, refl)
        | inl (true, q) ↦ rw (p, q) (refl, truth_bool true)
        | inl (false, q) ↦ rw (p, q) (truth_bool false, refl)
      ]
    ]

    de_morgan_bind :
        (l r : Result (EvalError Exn) Bool)
        → ((l >>= λ b. if b then r else ok false) >>= λ b. ok (not b))
          ≡ ((l >>= λ b. ok (not b)) >>= λ b. if b then ok true else (r >>= λ b. ok (not b)))
    de_morgan_bind (err e) r = refl
    de_morgan_bind (ok true) (err e) = refl
    de_morgan_bind (ok true) (ok b) = refl
    de_morgan_bind (ok false) r = refl

    -- The negation of a conjunction decides as the disjunction of the negations does, with the same
    -- exceptions.
    pub evaluate-de_morgan :
        (l r : Expr)
        → evaluate o (unary "not" (and_expr l r)) ctx
          ≡ evaluate o (or_expr (unary "not" l) (unary "not" r)) ctx
    evaluate-de_morgan l r =
        evaluate-not (and_expr l r)
        ∙ rw
            (
              (evaluate-connectives l r).0,
              (evaluate-connectives (unary "not" l) (unary "not" r)).1,
              evaluate-not l,
              evaluate-not r,
            )
            (de_morgan_bind (evaluate o l ctx) (evaluate o r ctx))
