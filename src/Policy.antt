-- ===== src/Policy.antt =====
-- src/eitohforge_sdk/core/policy_dsl/ast.py, the tokens of parse.py and the errors of the package.
-- Texts are lists of code points.
pub mod Lex
pub mod Parse
pub mod Print
pub mod Levels
pub mod RoundTrip
pub mod Total
pub mod Tokens
pub mod Eval
mod Tests
use eitoh_forge.Prelude.{ℕ, String, Bool, List}
use eitoh_forge.Prelude.Codes.{Text}
use eitoh_forge.Prelude.Int.{ℤ}

-- A number literal. A float is kept as it is read: the sign and the text that `float` is applied to.
pub data Number : Type 0 where
  int : ℤ → Number
  float : Bool → Text → Number

-- Literal.value
pub data Const : Type 0 where
  null : Const
  bool : Bool → Const
  str : Text → Const
  num : Number → Const

pub data Expr : Type 0 where
  literal : Const → Expr
  ref : List Text → Expr
  unary : String → Expr → Expr
  binary : Expr → String → Expr → Expr
  and_expr : Expr → Expr → Expr
  or_expr : Expr → Expr → Expr

pub data Comparison : Type 0 where
  eq ne lt gt le ge : Comparison

-- _Token.kind, with _Token.value for the kinds that have one
pub data Kind : Type 0 where
  lparen rparen dot : Kind
  cmp : Comparison → Kind
  string : Text → Kind
  number : Number → Kind
  kw_and kw_or kw_not kw_null kw_true kw_false kw_in : Kind
  ident : Text → Kind
  eof : Kind

-- A token is its kind and its position.
abbrev pub Token : Type 0
Token = Kind × ℕ

-- The `PolicySyntaxError`s with their positions, and the `ValueError` of `int` and `float` on a digit
-- that is no decimal. `out_of_fuel` and `no_token` belong to the model: they are proved never to occur.
pub data PolicyError : Type 0 where
  lone_eq lone_bang : ℕ → PolicyError
  open_escape open_string : ℕ → PolicyError
  bad_number : ℕ → PolicyError
  bad_character : ℕ → PolicyError
  expected_rparen expected_in : ℕ → PolicyError
  trailing_token : ℕ → PolicyError
  unexpected_token : ℕ → PolicyError
  expected_identifier : ℕ → PolicyError
  empty_reference empty_expression : PolicyError
  value_error : PolicyError
  out_of_fuel no_token : PolicyError
