-- ===== src/Policy/Print.antt =====
-- The tokens of an expression, with the parentheses that the precedences of the grammar need. This
-- is the description of the syntax that the parser is held to.
use eitoh_forge.Prelude.{
  ℕ, zero, suc, ◌≡◌, String, refl, ap, true, false, List, [], ◌∷◌, ◌++◌, if◌then◌else◌, leb, length,
}
use eitoh_forge.Prelude.Codes.{Text}
use eitoh_forge.Policy.{
  Const, null, bool, str, num, Expr, unary, and_expr, or_expr, Comparison, Kind, lparen, rparen,
  dot, cmp, string, number, kw_and, kw_or, kw_not, kw_null, kw_true, kw_false, kw_in, ident, Token,
}
use eitoh_forge.Policy.Parse.{op_name}

-- The operators of a binary node.
pub data Operator : Type 0 where
  compares : Comparison → Operator
  member not_member : Operator

unfoldable pub operator_name : Operator → String
unfolding op_name
operator_name (compares c) = op_name c
operator_name member = "in"
operator_name not_member = "not_in"

unfoldable pub operator_kinds : Operator → List Kind
operator_kinds (compares c) = cmp c ∷ []
operator_kinds member = kw_in ∷ []
operator_kinds not_member = kw_not ∷ kw_in ∷ []

-- The nodes that the surface syntax has, each with its operator.
pub data Surface : Type 0 where
  literal : Const → Surface
  ref : Text → List Text → Surface
  negation : Surface → Surface
  binary : Surface → Operator → Surface → Surface
  conjunction disjunction : Surface → Surface → Surface

-- The AST node of a surface expression.
unfoldable pub expr : Surface → Expr
unfolding operator_name
expr (literal c) = Expr.literal c
expr (ref s parts) = Expr.ref (s ∷ parts)
expr (negation e) = unary "not" (expr e)
expr (binary l o r) = Expr.binary (expr l) (operator_name o) (expr r)
expr (conjunction l r) = and_expr (expr l) (expr r)
expr (disjunction l r) = or_expr (expr l) (expr r)

unfoldable pub const_kind : Const → Kind
const_kind null = kw_null
const_kind (bool true) = kw_true
const_kind (bool false) = kw_false
const_kind (str s) = string s
const_kind (num n) = number n

unfoldable pub dotted : List Text → List Kind
dotted [] = []
dotted (s ∷ parts) = dot ∷ ident s ∷ dotted parts

-- How tightly the outermost operator binds.
abbrev pub precedence : Surface → ℕ
precedence (literal c) = 4
precedence (ref s parts) = 4
precedence (negation e) = 2
precedence (binary l o r) = 3
precedence (conjunction l r) = 1
precedence (disjunction l r) = 0

unfoldable pub wrap : ℕ → Surface → List Kind → List Kind
wrap p e ks = if leb p (precedence e) then ks else lparen ∷ (ks ++ rparen ∷ [])

-- The tokens of an expression.
unfoldable pub print : Surface → List Kind
unfolding const_kind dotted operator_kinds wrap
print (literal c) = const_kind c ∷ []
print (ref s parts) = ident s ∷ dotted parts
print (negation e) = kw_not ∷ wrap 2 e (print e)
print (binary l o r) = wrap 4 l (print l) ++ (operator_kinds o ++ wrap 4 r (print r))
print (conjunction l r) = wrap 1 l (print l) ++ kw_and ∷ wrap 2 r (print r)
print (disjunction l r) = print l ++ kw_or ∷ wrap 1 r (print r)

-- Tokens of these kinds at any positions.
unfoldable pub locate : (ℕ → ℕ) → List Kind → List Token
locate f [] = []
locate f (k ∷ ks) = (k, f 0) ∷ locate (λ n. f (suc n)) ks

-- The positions from the `n`-th on.
unfoldable pub shift : ℕ → (ℕ → ℕ) → ℕ → ℕ
shift zero f = f
shift (suc n) f = shift n (λ m. f (suc m))

pub locate-append :
    (f : ℕ → ℕ) (ks js : List Kind)
    → locate f (ks ++ js) ≡ locate f ks ++ locate (shift (length ks) f) js
unfolding locate shift
locate-append f [] js = refl
locate-append f (k ∷ ks) js = ap (◌∷◌ (k, f 0)) (locate-append (λ n. f (suc n)) ks js)

pub length-locate : (f : ℕ → ℕ) (ks : List Kind) → length (locate f ks) ≡ length ks
unfolding locate
length-locate f [] = refl
length-locate f (k ∷ ks) = ap suc (length-locate (λ n. f (suc n)) ks)
