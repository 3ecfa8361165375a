-- ===== src/Policy/Total.antt =====
-- The parser always ends with an expression or one of the syntax errors of the source.
use eitoh_forge.Prelude.{
  ℕ, zero, suc, ◌≤◌, ◌≡◌, ◌≢◌, true, false, Bool, List, [], ◌∷◌, ◌++◌, length, arith,
}
use eitoh_forge.Prelude.Codes.{Text}
use eitoh_forge.Prelude.Results.{Result, ok, err, ◌>>=◌}
use eitoh_forge.Policy.{
  Expr, and_expr, or_expr, Kind, lparen, rparen, dot, cmp, string, number, kw_and, kw_or, kw_not,
  kw_null, kw_true, kw_false, kw_in, ident, eof, Token, PolicyError, out_of_fuel, no_token,
}
use eitoh_forge.Policy.Parse.{
  ref_loop, parse_ref, expect_rparen, parse_primary, comparison_tail, parse_comparison, parse_not,
  and_loop, parse_and, or_loop, or_level, parse_or, parse_end, parse,
}

-- Tokens as the lexer makes them: the last one, and only that, is the end of the input.
abbrev pub IsEnded : List Token → Type 0
IsEnded [] = ⊥
IsEnded ((k, at) ∷ []) = k ≡ eof
IsEnded ((k, at) ∷ t ∷ ts) = (k ≢ eof) × IsEnded (t ∷ ts)

-- An error that the source raises.
abbrev pub IsRaised : PolicyError → Type 0
IsRaised out_of_fuel = ⊥
IsRaised no_token = ⊥
IsRaised _ = Unit

-- A parser ends with a raised error, or leaves at most `b` tokens, the end of the input among them.
abbrev Ends : ℕ → Result PolicyError (Expr × List Token) → Type 0
Ends b (err e) = IsRaised e
Ends b (ok (x, ts)) = IsEnded ts × (length ts ≤ b)

Ends-mono : {b c : ℕ} (r : Result PolicyError (Expr × List Token)) → b ≤ c → Ends b r → Ends c r
Ends-mono (err e) le h = h
Ends-mono (ok (x, ts)) le (h, l) = (h, omega arith)

Ends-bind :
    (b c : ℕ) (r : Result PolicyError (Expr × List Token))
    (k : Expr × List Token → Result PolicyError (Expr × List Token))
    → Ends b r
    → ((x : Expr) (ts : List Token) → IsEnded ts → length ts ≤ b → Ends c (k (x, ts)))
    → Ends c (r >>= k)
Ends-bind b c (err e) k h f = h
Ends-bind b c (ok (x, ts)) k (h, l) f = f x ts h l

-- `_advance` past a token that is not the end.
advance : (k : Kind) (at : ℕ) (ts : List Token) → k ≢ eof → IsEnded ((k, at) ∷ ts) → IsEnded ts
advance k at [] n h = absurd (n h)
advance k at (t ∷ ts) n h = h.1

ref_loop-Ends :
    (parts : List Text) (after_dot : Bool) (ts : List Token) (b : ℕ)
    → IsEnded ts
    → length ts ≤ b
    → Ends b (ref_loop parts after_dot ts)
unfolding ref_loop
ref_loop-Ends parts true ((ident s, at) ∷ ts) b h l =
    ref_loop-Ends (parts ++ s ∷ []) false ts b (advance _ at ts (λ e. cc) h) (omega arith)
ref_loop-Ends parts true (_ ∷ ts) b h l = tt
ref_loop-Ends parts false ((dot, at) ∷ ts) b h l =
    ref_loop-Ends parts true ts b (advance _ at ts (λ e. cc) h) (omega arith)
ref_loop-Ends parts false (_ ∷ ts) b h l = (h, l)
ref_loop-Ends parts true [] b h l = absurd h
ref_loop-Ends parts false [] b h l = absurd h

expect_rparen-Ends :
    (x : Expr) (ts : List Token) (b : ℕ) → IsEnded ts → length ts ≤ b → Ends b (expect_rparen x ts)
unfolding expect_rparen
expect_rparen-Ends x [] b h l = absurd h
expect_rparen-Ends x ((rparen, at) ∷ ts) b h l = (advance _ at ts (λ e. cc) h, omega arith)
expect_rparen-Ends x (_ ∷ ts) b h l = tt

module _ (n : ℕ)
    (inner : (b : ℕ) (ts : List Token)
      → suc b ≤ n
      → IsEnded ts
      → length ts ≤ suc b
      → Ends b (parse_or n ts)) where
  parse_primary-Ends :
      (b : ℕ) (ts : List Token)
      → b ≤ n
      → IsEnded ts
      → length ts ≤ suc b
      → Ends b (parse_primary (parse_or n) ts)
  unfolding parse_primary parse_ref
  parse_primary-Ends b [] f h l = absurd h
  parse_primary-Ends zero ((lparen, at) ∷ []) f h l = absurd (cc h)
  parse_primary-Ends zero ((lparen, at) ∷ t ∷ ts) f h l = absurd (omega arith)
  parse_primary-Ends (suc b) ((lparen, at) ∷ ts) f h l =
      Ends-bind b (suc b) (parse_or n ts) _
        (inner b ts f (advance _ at ts (λ e. cc) h) (omega arith))
        λ x rest g m. expect_rparen-Ends x rest (suc b) g (omega arith)
  parse_primary-Ends b ((kw_null, at) ∷ ts) f h l = (advance _ at ts (λ e. cc) h, omega arith)
  parse_primary-Ends b ((kw_true, at) ∷ ts) f h l = (advance _ at ts (λ e. cc) h, omega arith)
  parse_primary-Ends b ((kw_false, at) ∷ ts) f h l = (advance _ at ts (λ e. cc) h, omega arith)
  parse_primary-Ends b ((string s, at) ∷ ts) f h l = (advance _ at ts (λ e. cc) h, omega arith)
  parse_primary-Ends b ((number m, at) ∷ ts) f h l = (advance _ at ts (λ e. cc) h, omega arith)
  parse_primary-Ends b ((ident s, at) ∷ ts) f h l =
      ref_loop-Ends _ false ts b (advance _ at ts (λ e. cc) h) (omega arith)
  parse_primary-Ends b (_ ∷ ts) f h l = tt

  -- A second operand.
  operand-Ends :
      (b : ℕ) (make : Expr → Expr) (ts : List Token)
      → b ≤ n
      → IsEnded ts
      → length ts ≤ b
      → Ends b (parse_primary (parse_or n) ts >>= λ p. ok (make p.0, p.1))
  operand-Ends b make ts f h l =
      Ends-bind b b (parse_primary (parse_or n) ts) _ (parse_primary-Ends b ts f h (omega arith))
        λ x rest g m. (g, m)

  comparison_tail-Ends :
      (b : ℕ) (left : Expr) (ts : List Token)
      → b ≤ n
      → IsEnded ts
      → length ts ≤ b
      → Ends b (comparison_tail (parse_or n) left ts)
  unfolding comparison_tail
  comparison_tail-Ends b left [] f h l = absurd h
  comparison_tail-Ends b left ((cmp c, at) ∷ ts) f h l =
      operand-Ends b _ ts f (advance _ at ts (λ e. cc) h) (omega arith)
  comparison_tail-Ends b left ((kw_not, at) ∷ (kw_in, at') ∷ ts) f h l =
      operand-Ends b _ ts f (advance _ at' ts (λ e. cc) h.1) (omega arith)
  comparison_tail-Ends b left ((kw_in, at) ∷ ts) f h l =
      operand-Ends b _ ts f (advance _ at ts (λ e. cc) h) (omega arith)
  comparison_tail-Ends b left (t ∷ ts) f h l = (h, l)

  parse_comparison-Ends :
      (b : ℕ) (ts : List Token)
      → b ≤ n
      → IsEnded ts
      → length ts ≤ suc b
      → Ends b (parse_comparison (parse_or n) ts)
  unfolding parse_comparison
  parse_comparison-Ends b ts f h l =
      Ends-bind b b (parse_primary (parse_or n) ts) _ (parse_primary-Ends b ts f h l)
        λ x rest g m. comparison_tail-Ends b x rest f g m

  parse_not-Ends :
      (b : ℕ) (ts : List Token)
      → b ≤ n
      → IsEnded ts
      → length ts ≤ suc b
      → Ends b (parse_not (parse_or n) ts)
  unfolding parse_not
  parse_not-Ends b ((kw_not, at) ∷ ts) f h l =
      Ends-bind b b (parse_not (parse_or n) ts) _
        (parse_not-Ends b ts f (advance _ at ts (λ e. cc) h) (omega arith)) λ x rest g m. (g, m)
  parse_not-Ends b ts f h l = parse_comparison-Ends b ts f h l

  and_loop-Ends :
      (fuel b : ℕ) (left : Expr) (ts : List Token)
      → b ≤ n
      → IsEnded ts
      → length ts ≤ b
      → length ts ≤ fuel
      → Ends b (and_loop (parse_or n) fuel left ts)
  unfolding and_loop
  and_loop-Ends fuel b left [] f h l m = absurd h
  and_loop-Ends zero b left ((kw_and, at) ∷ ts) f h l m = absurd (omega arith)
  and_loop-Ends (suc fuel) zero left ((kw_and, at) ∷ ts) f h l m = absurd (omega arith)
  and_loop-Ends (suc fuel) (suc b) left ((kw_and, at) ∷ []) f h l m = absurd (cc h)
  and_loop-Ends (suc fuel) (suc b) left ((kw_and, at) ∷ t ∷ ts) f h l m =
      let c = length ts in
      Ends-bind c (suc b) (parse_not (parse_or n) (t ∷ ts)) _
        (parse_not-Ends c (t ∷ ts) (omega arith) h.1 (omega arith))
        λ x rest g k.
          and_loop-Ends fuel (suc b) (and_expr left x) rest f g (omega arith) (omega arith)
  and_loop-Ends zero b left (_ ∷ ts) f h l m = (h, l)
  and_loop-Ends (suc fuel) b left (_ ∷ ts) f h l m = (h, l)

  parse_and-Ends :
      (b : ℕ) (ts : List Token)
      → b ≤ n
      → IsEnded ts
      → length ts ≤ suc b
      → Ends b (parse_and (parse_or n) ts)
  unfolding parse_and
  parse_and-Ends b [] f h l = absurd h
  parse_and-Ends b (t ∷ ts) f h l =
      let c = length ts in
      Ends-bind c b (parse_not (parse_or n) (t ∷ ts)) _
        (parse_not-Ends c (t ∷ ts) (omega arith) h (omega arith))
        λ x rest g m. and_loop-Ends (suc c) b x rest f g (omega arith) (omega arith)

  or_loop-Ends :
      (fuel b : ℕ) (left : Expr) (ts : List Token)
      → b ≤ n
      → IsEnded ts
      → length ts ≤ b
      → length ts ≤ fuel
      → Ends b (or_loop (parse_or n) fuel left ts)
  unfolding or_loop
  or_loop-Ends fuel b left [] f h l m = absurd h
  or_loop-Ends zero b left ((kw_or, at) ∷ ts) f h l m = absurd (omega arith)
  or_loop-Ends (suc fuel) zero left ((kw_or, at) ∷ ts) f h l m = absurd (omega arith)
  or_loop-Ends (suc fuel) (suc b) left ((kw_or, at) ∷ []) f h l m = absurd (cc h)
  or_loop-Ends (suc fuel) (suc b) left ((kw_or, at) ∷ t ∷ ts) f h l m =
      let c = length ts in
      Ends-bind c (suc b) (parse_and (parse_or n) (t ∷ ts)) _
        (parse_and-Ends c (t ∷ ts) (omega arith) h.1 (omega arith))
        λ x rest g k.
          or_loop-Ends fuel (suc b) (or_expr left x) rest f g (omega arith) (omega arith)
  or_loop-Ends zero b left (_ ∷ ts) f h l m = (h, l)
  or_loop-Ends (suc fuel) b left (_ ∷ ts) f h l m = (h, l)

  or_level-Ends :
      (b : ℕ) (ts : List Token)
      → b ≤ n
      → IsEnded ts
      → length ts ≤ suc b
      → Ends b (or_level (parse_or n) ts)
  unfolding or_level
  or_level-Ends b [] f h l = absurd h
  or_level-Ends b (t ∷ ts) f h l =
      let c = length ts in
      Ends-bind c b (parse_and (parse_or n) (t ∷ ts)) _
        (parse_and-Ends c (t ∷ ts) (omega arith) h (omega arith))
        λ x rest g m. or_loop-Ends (suc c) b x rest f g (omega arith) (omega arith)

parse_or-Ends :
    (n b : ℕ) (ts : List Token)
    → suc b ≤ n
    → IsEnded ts
    → length ts ≤ suc b
    → Ends b (parse_or n ts)
unfolding parse_or
parse_or-Ends zero b ts f h l = absurd (omega arith)
parse_or-Ends (suc n) b ts f h l = or_level-Ends n (parse_or-Ends n) b ts (omega arith) h l

-- An expression, or an error that the source raises.
abbrev pub Answers {ℓ} : {A : Type ℓ} → Result PolicyError A → Type 0
Answers (ok x) = Unit
Answers (err e) = IsRaised e

parse_end-Answers : (x : Expr) (ts : List Token) → IsEnded ts → Answers (parse_end x ts)
unfolding parse_end
parse_end-Answers x [] h = absurd h
parse_end-Answers x ((eof, at) ∷ ts) h = tt
parse_end-Answers x (_ ∷ ts) h = tt

parse_end-bind :
    (b : ℕ) (r : Result PolicyError (Expr × List Token))
    → Ends b r
    → Answers (r >>= λ p. parse_end p.0 p.1)
parse_end-bind b (err e) h = h
parse_end-bind b (ok (x, ts)) h = parse_end-Answers x ts h.0

-- On all tokens that end as the lexer's do, the parser returns an expression or raises one of the
-- source's errors: its fuel suffices, and it reads no token behind the last.
pub parse-Answers : (ts : List Token) → IsEnded ts → Answers (parse ts)
unfolding parse
parse-Answers ts h =
    parse_end-bind (length ts) (parse_or (suc (length ts)) ts)
      (parse_or-Ends (suc (length ts)) (length ts) ts (omega arith) h (omega arith))
