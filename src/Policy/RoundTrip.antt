-- ===== src/Policy/RoundTrip.antt =====
-- The parser reads back every surface expression from its tokens.
use mathlib.Core.List.{append-nil, append_assoc}
use eitoh_forge.Prelude.{
  ℕ, suc, ◌≤◌, ◌≡◌, ◌∙◌, refl, ap, true, false, List, [], ◌∷◌, ◌++◌, length, length-append, arith,
}
use eitoh_forge.Prelude.Codes.{Text}
use eitoh_forge.Prelude.Results.{ok}
use eitoh_forge.Policy.{
  Const, null, bool, str, num, Expr, Kind, dot, kw_and, kw_or, lparen, rparen, eof, Token, ident,
}
use eitoh_forge.Policy.Parse.{ref_loop, parse_ref, parse_primary, parse_or, parse_end, parse}
use eitoh_forge.Policy.Print.{
  Surface, Operator, literal, ref, negation, binary, conjunction, disjunction, expr, const_kind,
  dotted, wrap, print, locate, length-locate,
}
use eitoh_forge.Policy.Levels.{
  follow, Primary, Negation, Conjunction, Disjunction, StartsOperand, Negation-Primary,
  Conjunction-Negation, Disjunction-Conjunction, or_level-Disjunction, Primary-Disjunction,
  Negation-not, Negation-binary, Conjunction-and, Disjunction-or,
}

ref_loop-stop :
    (parts : List Text) (k : Kind) (at : ℕ) (ts : List Token)
    → follow k ≤ 3
    → ref_loop parts false ((k, at) ∷ ts) ≡ ok (Expr.ref parts, (k, at) ∷ ts)
unfolding ref_loop
ref_loop-stop parts dot at ts h = absurd (omega arith)
ref_loop-stop parts _ at ts h = refl

ref_loop-dotted :
    (parts more : List Text) (f : ℕ → ℕ) (k : Kind) (at : ℕ) (ts : List Token)
    → follow k ≤ 3
    → ref_loop parts false (locate f (dotted more) ++ (k, at) ∷ ts)
      ≡ ok (Expr.ref (parts ++ more), (k, at) ∷ ts)
unfolding ref_loop locate dotted
ref_loop-dotted parts [] f k at ts h = rw append-nil (ref_loop-stop parts k at ts h)
ref_loop-dotted parts (s ∷ more) f k at ts h =
    ref_loop-dotted (parts ++ s ∷ []) more (λ n. f (suc (suc n))) k at ts h
    ∙ ap (λ l. ok (Expr.ref l, (k, at) ∷ ts)) (append_assoc parts (s ∷ []) more)

Primary-literal : (c : Const) → Primary (const_kind c ∷ []) (Expr.literal c)
unfolding parse_primary locate const_kind
Primary-literal null n f k at ts fuel h = refl
Primary-literal (bool true) n f k at ts fuel h = refl
Primary-literal (bool false) n f k at ts fuel h = refl
Primary-literal (str s) n f k at ts fuel h = refl
Primary-literal (num m) n f k at ts fuel h = refl

Primary-ref :
    (s : Text) (parts : List Text) → Primary (ident s ∷ dotted parts) (Expr.ref (s ∷ parts))
unfolding parse_primary parse_ref locate
Primary-ref s parts n f k at ts fuel h = ref_loop-dotted (s ∷ []) parts (λ m. f (suc m)) k at ts h

StartsOperand-literal : (c : Const) → StartsOperand (const_kind c ∷ [])
unfolding const_kind
StartsOperand-literal null = (_, [], refl, λ e. cc)
StartsOperand-literal (bool true) = (_, [], refl, λ e. cc)
StartsOperand-literal (bool false) = (_, [], refl, λ e. cc)
StartsOperand-literal (str s) = (_, [], refl, λ e. cc)
StartsOperand-literal (num m) = (_, [], refl, λ e. cc)

-- The rounds of the two loops over the tokens of an expression.
ands : Surface → ℕ
ands (conjunction l r) = suc (ands l)
ands _ = 0

ors : Surface → ℕ
ors (disjunction l r) = suc (ors l)
ors _ = 0

-- Every level reads the expression, in parentheses where the level needs them.
record RoundTrips (e : Surface) : Type 0 where
  primary : Primary (wrap 4 e (print e)) (expr e)
  starts : StartsOperand (wrap 4 e (print e))
  negation : Negation (wrap 2 e (print e)) (expr e)
  conjunction : Conjunction (ands e) (wrap 1 e (print e)) (expr e)
  ands_le : ands e ≤ length (wrap 1 e (print e))
  disjunction : Disjunction (ors e) (print e) (expr e)
  ors_le : ors e ≤ length (print e)

parens : List Kind → List Kind
parens ks = lparen ∷ (ks ++ rparen ∷ [])

StartsOperand-parens : (ks : List Kind) → StartsOperand (parens ks)
unfolding parens
StartsOperand-parens ks = (lparen, _, refl, λ e. cc)

-- From an operand up.
RoundTrips-operand :
    (ks : List Kind) (x : Expr)
    → StartsOperand ks
    → Primary ks x
    → Negation ks x × Conjunction 0 ks x × Disjunction 0 ks x
RoundTrips-operand ks x s p =
    let q = Negation-Primary ks x s p in
    let c = Conjunction-Negation ks x q in (q, c, Disjunction-Conjunction ks x 0 (omega arith) c)

RoundTrips-literal : (c : Const) → RoundTrips (literal c)
unfolding wrap print expr ands ors
RoundTrips-literal c =
    let (q, a, o) = RoundTrips-operand _ _ (StartsOperand-literal c) (Primary-literal c) in
    record {
      primary = Primary-literal c;
      starts = StartsOperand-literal c;
      negation = q;
      conjunction = a;
      ands_le = omega arith;
      disjunction = o;
      ors_le = omega arith;
    }

RoundTrips-ref : (s : Text) (parts : List Text) → RoundTrips (ref s parts)
unfolding wrap print expr ands ors
RoundTrips-ref s parts =
    let start : StartsOperand (ident s ∷ dotted parts) = (ident s, dotted parts, refl, λ e. cc) in
    let (q, a, o) = RoundTrips-operand _ _ start (Primary-ref s parts) in
    record {
      primary = Primary-ref s parts;
      starts = start;
      negation = q;
      conjunction = a;
      ands_le = omega arith;
      disjunction = o;
      ors_le = omega arith;
    }

-- What parentheses make of an expression that the loop over `or` reads.
Parens : List Kind → Expr → Type 0
Parens ks x = Primary (parens ks) x × Negation (parens ks) x × Conjunction 0 (parens ks) x

Parens-Disjunction :
    (ks : List Kind) (x : Expr) (c : ℕ) → c ≤ length ks → Disjunction c ks x → Parens ks x
unfolding Parens parens
Parens-Disjunction ks x c le d =
    let p = Primary-Disjunction ks x c le d in
    let (q, a, _) = RoundTrips-operand _ x (StartsOperand-parens ks) p in (p, q, a)

RoundTrips-negation : (e : Surface) → RoundTrips e → RoundTrips (negation e)
unfolding wrap print expr ands ors Parens parens
RoundTrips-negation e r =
    let q = Negation-not _ [] _ (expr e) r.negation in
    let a = Conjunction-Negation _ _ q in
    let o = Disjunction-Conjunction _ _ 0 (omega arith) a in
    let (p, _, _) = Parens-Disjunction _ _ 0 (omega arith) o in
    record {
      primary = p;
      starts = StartsOperand-parens (print (negation e));
      negation = q;
      conjunction = a;
      ands_le = omega arith;
      disjunction = o;
      ors_le = omega arith;
    }

RoundTrips-binary :
    (l r : Surface) (o : Operator) → RoundTrips l → RoundTrips r → RoundTrips (binary l o r)
unfolding wrap print expr ands ors Parens parens
RoundTrips-binary l r op hl hr =
    let q =
      Negation-binary (wrap 4 l (print l)) (wrap 4 r (print r)) _ _ op hl.starts hl.primary
        hr.primary in
    let a = Conjunction-Negation _ _ q in
    let o = Disjunction-Conjunction _ _ 0 (omega arith) a in
    let (p, _, _) = Parens-Disjunction _ _ 0 (omega arith) o in
    record {
      primary = p;
      starts = StartsOperand-parens (print (binary l op r));
      negation = q;
      conjunction = a;
      ands_le = omega arith;
      disjunction = o;
      ors_le = omega arith;
    }

RoundTrips-conjunction :
    (l r : Surface) → RoundTrips l → RoundTrips r → RoundTrips (conjunction l r)
unfolding wrap print expr ands ors Parens parens
RoundTrips-conjunction l r hl hr =
    let ks = wrap 1 l (print l) in
    let js = wrap 2 r (print r) in
    let a = Conjunction-and ks js _ _ (ands l) hl.conjunction hr.negation in
    let le : suc (ands l) ≤ length (ks ++ kw_and ∷ js) =
      omega (arith, hl.ands_le, length-append ks (kw_and ∷ js)) in
    let o = Disjunction-Conjunction _ _ (suc (ands l)) le a in
    let (p, q, _) = Parens-Disjunction _ _ 0 (omega arith) o in
    record {
      primary = p;
      starts = StartsOperand-parens (print (conjunction l r));
      negation = q;
      conjunction = a;
      ands_le = le;
      disjunction = o;
      ors_le = omega arith;
    }

RoundTrips-disjunction :
    (l r : Surface) → RoundTrips l → RoundTrips r → RoundTrips (disjunction l r)
unfolding wrap print expr ands ors Parens parens
RoundTrips-disjunction l r hl hr =
    let js = wrap 1 r (print r) in
    let o =
      Disjunction-or (print l) js _ _ (ors l) (ands r) hl.disjunction hr.ands_le hr.conjunction in
    let le : suc (ors l) ≤ length (print l ++ kw_or ∷ js) =
      omega (arith, hl.ors_le, length-append (print l) (kw_or ∷ js)) in
    let (p, q, a) = Parens-Disjunction _ _ (suc (ors l)) le o in
    record {
      primary = p;
      starts = StartsOperand-parens (print (disjunction l r));
      negation = q;
      conjunction = a;
      ands_le = omega arith;
      disjunction = o;
      ors_le = le;
    }

round_trips : (e : Surface) → RoundTrips e
round_trips (literal c) = RoundTrips-literal c
round_trips (ref s parts) = RoundTrips-ref s parts
round_trips (negation e) = RoundTrips-negation e (round_trips e)
round_trips (binary l o r) = RoundTrips-binary l r o (round_trips l) (round_trips r)
round_trips (conjunction l r) = RoundTrips-conjunction l r (round_trips l) (round_trips r)
round_trips (disjunction l r) = RoundTrips-disjunction l r (round_trips l) (round_trips r)

-- The tokens of a surface expression, at any positions and with the end of the input behind them,
-- parse to that expression: `or` binds looser than `and`, `and` looser than `not`, `not` looser than
-- comparisons, and `or` and `and` associate to the left.
pub parse-print :
    (e : Surface) (f : ℕ → ℕ) (at : ℕ) → parse (locate f (print e) ++ (eof, at) ∷ []) ≡ ok (expr e)
unfolding parse parse_or parse_end
parse-print e f at =
    let r = round_trips e in
    rw (
      or_level-Disjunction (print e) (expr e) (ors e) r.ors_le r.disjunction
        (length (locate f (print e) ++ (eof, at) ∷ [])) f eof at []
        (omega
          (arith, length-append (locate f (print e)) ((eof, at) ∷ []), length-locate f (print e)))
        (omega arith))
