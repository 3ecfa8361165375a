-- ===== src/Policy/Tests.antt =====
-- Parses and evaluations of concrete policies, and the theorems at them.
use eitoh_forge.Prelude.{
  ◌≡◌, refl, true, false, none, List, [], ◌∷◌, ◌++◌, if◌then◌else◌, ◌==◌, arith,
}
use eitoh_forge.Prelude.Text.{isspace}
use eitoh_forge.Prelude.Codes.{codes}
use eitoh_forge.Prelude.Int.{pos, negsuc}
use eitoh_forge.Prelude.Results.{ok, err, ◌>>=◌}
use eitoh_forge.Policy.{
  Const, null, bool, str, num, int, Expr, unary, and_expr, or_expr, Comparison, Token, kw_not,
  lparen, eof, bad_character, lone_eq, value_error,
}
use eitoh_forge.Policy.Lex.{Unicode, lex}
use eitoh_forge.Policy.Parse.{parse, parse_expr}
use eitoh_forge.Policy.Print.{
  Surface, literal, ref, binary, conjunction, disjunction, compares, print, expr, locate,
}
use eitoh_forge.Policy.RoundTrip.{parse-print}
use eitoh_forge.Policy.Total.{IsEnded, Answers, parse-Answers}
use eitoh_forge.Policy.Tokens.{LexEnds, lex-LexEnds, parse_expr-Answers, lex-not_decimal}
use eitoh_forge.Policy.Eval.{Objects, PolicyContext, raised, evaluate}
use eitoh_forge.Policy.Eval.Laws.{evaluate-connectives, evaluate-de_morgan}

-- ASCII only.
abbrev ascii : Unicode
ascii = record { alpha = λ c. false; digit = λ c. false; alnum = λ c. false; decimal = λ c. none }

parse_policy :
    parse_expr ascii (codes " principal.id == 'a' and not (-3 in attributes.xs or y) ")
    ≡ ok (
        and_expr
          (Expr.binary
            (Expr.ref (codes "principal" ∷ codes "id" ∷ []))
            "=="
            (Expr.literal (str (codes "a"))))
          (unary "not" (
            or_expr
              (Expr.binary
                (Expr.literal (num (int (negsuc 2))))
                "in"
                (Expr.ref (codes "attributes" ∷ codes "xs" ∷ [])))
              (Expr.ref (codes "y" ∷ [])))))
unfolding parse_expr
parse_policy = refl

parse_errors :
    (parse_expr ascii (codes "a = 1") ≡ err (lone_eq 2))
    × (parse_expr ascii (codes "a & b") ≡ err (bad_character 2))
unfolding parse_expr
parse_errors = (refl, refl)

-- (a or b) and c == 1
abbrev grouped : Surface
grouped =
    conjunction (disjunction (ref (codes "a") []) (ref (codes "b") []))
      (binary (ref (codes "c") []) (compares Comparison.eq) (literal (num (int (pos 1)))))

parse-print_example : parse (locate (λ n. n) (print grouped) ++ (eof, 12) ∷ []) ≡ ok (expr grouped)
parse-print_example = parse-print grouped (λ n. n) 12

abbrev bare : List Token
bare = (kw_not, 0) ∷ (lparen, 4) ∷ (eof, 5) ∷ []

bare-IsEnded : IsEnded bare
bare-IsEnded = ((λ e. cc), ((λ e. cc), refl))

parse-Answers_example : Answers (parse bare)
parse-Answers_example = parse-Answers bare bare-IsEnded

lex-LexEnds_example : LexEnds (lex ascii (codes "a.b >= 'x"))
lex-LexEnds_example = lex-LexEnds ascii (codes "a.b >= 'x")

parse_expr-Answers_example : Answers (parse_expr ascii (codes "a.b and (1.5 != c"))
parse_expr-Answers_example = parse_expr-Answers ascii (codes "a.b and (1.5 != c")

-- Objects that are Booleans or None, and have no attributes.
abbrev truths : Objects
truths = record {
  Obj = Const;
  Exn = Unit {0};
  const = λ c. c;
  truth = λ c. ok (elim c [ bool b ↦ b | _ ↦ false ]);
  truth_bool = λ b. refl;
  is_mapping = λ c. false;
  mapping_get = λ c s. ok null;
  get_attr = λ c s. ok null;
  eq = λ a b. ok (bool true);
  ne = λ a b. ok (bool false);
  lt = λ a b. err (raised tt);
  le = λ a b. err (raised tt);
  gt = λ a b. err (raised tt);
  ge = λ a b. err (raised tt);
  contains = λ a b. err (raised tt);
}

abbrev context : PolicyContext truths
context = record { principal = bool true; attributes = null }

abbrev principal_id : Expr
principal_id = Expr.ref (codes "principal" ∷ codes "id" ∷ [])

abbrev compared : Expr
compared = Expr.binary principal_id "<" (Expr.literal null)

evaluate-connectives_example :
    (evaluate truths (and_expr principal_id compared) context ≡ (
      evaluate truths principal_id context >>= λ b.
      if b then evaluate truths compared context else ok false))
    × (evaluate truths (or_expr principal_id compared) context ≡ (
        evaluate truths principal_id context >>= λ b.
        if b then ok true else evaluate truths compared context))
evaluate-connectives_example = evaluate-connectives truths context principal_id compared

evaluate-de_morgan_example :
    evaluate truths (unary "not" (and_expr principal_id compared)) context
    ≡ evaluate truths (or_expr (unary "not" principal_id) (unary "not" compared)) context
evaluate-de_morgan_example = evaluate-de_morgan truths context principal_id compared

short_circuit : evaluate truths (and_expr principal_id compared) context ≡ ok false
unfolding evaluate
short_circuit = refl

-- With the superscript two.
abbrev with_superscript : Unicode
with_superscript = record {
  alpha = λ c. false;
  digit = λ c. c == 178;
  alnum = λ c. c == 178;
  decimal = λ c. none;
}

lex-not_decimal_example : lex with_superscript (178 ∷ codes " == 1") ≡ err value_error
unfolding isspace
lex-not_decimal_example =
    lex-not_decimal with_superscript 178 (codes " == 1") (omega arith) refl refl refl
