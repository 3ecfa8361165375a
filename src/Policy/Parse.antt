-- ===== src/Policy/Parse.antt =====
-- `_Parser` and `parse_expr` of src/eitohforge_sdk/core/policy_dsl/parse.py. A parser takes the tokens
-- from `_i` on and returns the tokens that it leaves. `no_token` stands for an index out of range.
use eitoh_forge.Prelude.{
  ℕ, zero, suc, String, Bool, true, false, List, [], ◌∷◌, ◌++◌, if◌then◌else◌, length, is_empty,
}
use eitoh_forge.Prelude.Codes.{Text, strip}
use eitoh_forge.Prelude.Results.{Result, ok, err, ◌>>=◌}
use eitoh_forge.Policy.{
  null, bool, str, num, Expr, literal, ref, unary, binary, and_expr, or_expr, Comparison, eq, ne,
  lt, gt, le, ge, lparen, rparen, dot, cmp, string, number, kw_and, kw_or, kw_not, kw_null, kw_true,
  kw_false, kw_in, ident, eof, Token, PolicyError, expected_rparen, trailing_token,
  unexpected_token, expected_identifier, empty_reference, empty_expression, out_of_fuel, no_token,
}
use eitoh_forge.Policy.Lex.{Unicode, lex}

abbrev pub Parser : Type 0
Parser = List Token → Result PolicyError (Expr × List Token)

-- The loop of `_parse_ref`. `after_dot` says that the last token was a dot.
unfoldable pub ref_loop : List Text → Bool → Parser
ref_loop parts after_dot [] = err no_token
ref_loop parts true ((ident s, at) ∷ ts) = ref_loop (parts ++ s ∷ []) false ts
ref_loop parts true ((k, at) ∷ ts) = err (expected_identifier at)
ref_loop parts false ((dot, at) ∷ ts) = ref_loop parts true ts
ref_loop parts false ((k, at) ∷ ts) = ok (ref parts, (k, at) ∷ ts)

-- _parse_ref
unfoldable pub parse_ref : Parser
unfolding ref_loop
parse_ref [] = err no_token
parse_ref ((ident s, at) ∷ ts) = ref_loop (s ∷ []) false ts
parse_ref ((k, at) ∷ ts) = err empty_reference

-- self._expect("RPAREN"), and the expression that stood in the parentheses
unfoldable pub expect_rparen : Expr → Parser
expect_rparen e [] = err no_token
expect_rparen e ((rparen, at) ∷ ts) = ok (e, ts)
expect_rparen e ((k, at) ∷ ts) = err (expected_rparen at)

unfoldable pub op_name : Comparison → String
op_name eq = "=="
op_name ne = "!="
op_name lt = "<"
op_name gt = ">"
op_name le = "<="
op_name ge = ">="

-- `inner` is `_parse_or`.
module _ (inner : Parser) where
  -- _parse_primary
  unfoldable pub parse_primary : Parser
  unfolding expect_rparen parse_ref
  parse_primary [] = err no_token
  parse_primary ((lparen, at) ∷ ts) = do (e, rest) ← inner ts; expect_rparen e rest
  parse_primary ((kw_null, at) ∷ ts) = ok (literal null, ts)
  parse_primary ((kw_true, at) ∷ ts) = ok (literal (bool true), ts)
  parse_primary ((kw_false, at) ∷ ts) = ok (literal (bool false), ts)
  parse_primary ((string s, at) ∷ ts) = ok (literal (str s), ts)
  parse_primary ((number n, at) ∷ ts) = ok (literal (num n), ts)
  parse_primary ((ident s, at) ∷ ts) = parse_ref ((ident s, at) ∷ ts)
  parse_primary ((k, at) ∷ ts) = err (unexpected_token at)

  -- _parse_comparison, after its first operand
  unfoldable pub comparison_tail : Expr → Parser
  unfolding parse_primary op_name
  comparison_tail left [] = err no_token
  comparison_tail left ((cmp c, at) ∷ ts) = do
    (right, rest) ← parse_primary ts
    ok (binary left (op_name c) right, rest)
  comparison_tail left ((kw_not, at) ∷ (kw_in, at') ∷ ts) = do
    (right, rest) ← parse_primary ts
    ok (binary left "not_in" right, rest)
  comparison_tail left ((kw_in, at) ∷ ts) = do
    (right, rest) ← parse_primary ts
    ok (binary left "in" right, rest)
  comparison_tail left (t ∷ ts) = ok (left, t ∷ ts)

  -- _parse_comparison
  unfoldable pub parse_comparison : Parser
  unfolding comparison_tail
  parse_comparison ts = do (left, rest) ← parse_primary ts; comparison_tail left rest

  -- _parse_not
  unfoldable pub parse_not : Parser
  unfolding parse_comparison
  parse_not ((kw_not, at) ∷ ts) = do (e, rest) ← parse_not ts; ok (unary "not" e, rest)
  parse_not ts = parse_comparison ts

  -- The loop of `_parse_and`.
  unfoldable pub and_loop : ℕ → Expr → Parser
  unfolding parse_not
  and_loop fuel left [] = err no_token
  and_loop zero left ((kw_and, at) ∷ ts) = err out_of_fuel
  and_loop (suc fuel) left ((kw_and, at) ∷ ts) = do
    (right, rest) ← parse_not ts
    and_loop fuel (and_expr left right) rest
  and_loop fuel left (t ∷ ts) = ok (left, t ∷ ts)

  -- _parse_and
  unfoldable pub parse_and : Parser
  unfolding and_loop
  parse_and ts = do (left, rest) ← parse_not ts; and_loop (length ts) left rest

  -- The loop of `_parse_or`.
  unfoldable pub or_loop : ℕ → Expr → Parser
  unfolding parse_and
  or_loop fuel left [] = err no_token
  or_loop zero left ((kw_or, at) ∷ ts) = err out_of_fuel
  or_loop (suc fuel) left ((kw_or, at) ∷ ts) = do
    (right, rest) ← parse_and ts
    or_loop fuel (or_expr left right) rest
  or_loop fuel left (t ∷ ts) = ok (left, t ∷ ts)

  -- One call of `_parse_or`.
  unfoldable pub or_level : Parser
  unfolding or_loop
  or_level ts = do (left, rest) ← parse_and ts; or_loop (length ts) left rest

-- _parse_or, with fuel for the nesting of parentheses
unfoldable pub parse_or : ℕ → Parser
unfolding or_level
parse_or zero ts = err out_of_fuel
parse_or (suc fuel) ts = or_level (parse_or fuel) ts

unfoldable pub parse_end : Expr → List Token → Result PolicyError Expr
parse_end e [] = err no_token
parse_end e ((eof, at) ∷ ts) = ok e
parse_end e ((k, at) ∷ ts) = err (trailing_token at)

-- _Parser(tokens).parse()
unfoldable pub parse : List Token → Result PolicyError Expr
unfolding parse_or parse_end
parse tokens = do (e, rest) ← parse_or (suc (length tokens)) tokens; parse_end e rest

unfoldable pub parse_expr : Unicode → Text → Result PolicyError Expr
unfolding lex parse strip
parse_expr u source =
    let s = strip source in
    if is_empty s then err empty_expression else do tokens ← lex u s; parse tokens
