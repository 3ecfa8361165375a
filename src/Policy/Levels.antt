-- ===== src/Policy/Levels.antt =====
-- The levels of the parser, each on the tokens that `print` makes for it. The statements are over token kinds `ks` that are followed by a token that the level leaves alone.
use mathlib.Core.List.{append_assoc}
use native.Mathlib.Nat.{zero-add}
use eitoh_forge.Prelude.{
  ℕ, zero, suc, ◌+◌, ◌-◌, ◌≤◌, ◌≡◌, ◌≢◌, ◌∙◌, refl, sym, ap, subst, List, [], ◌∷◌, ◌++◌, length,
  length-append, arith,
}
use eitoh_forge.Prelude.Results.{Result, ok, ◌>>=◌}
use eitoh_forge.Policy.{
  Expr, unary, and_expr, or_expr, Kind, lparen, rparen, cmp, kw_and, kw_or, kw_not, kw_in, eof,
  Token, PolicyError,
}
use eitoh_forge.Policy.Parse.{
  expect_rparen, parse_primary, comparison_tail, parse_comparison, parse_not, and_loop, parse_and,
  or_loop, or_level, parse_or,
}
use eitoh_forge.Policy.Print.{
  Operator, compares, member, not_member, operator_name, operator_kinds, locate, shift,
  locate-append, length-locate,
}

-- The tightest level that a token ends: 0 all, 1 those above `or`, 2 those above `and`, 3 operands.
abbrev pub follow : Kind → ℕ
follow eof = 0
follow rparen = 0
follow kw_or = 1
follow kw_and = 2
follow (cmp c) = 3
follow kw_in = 3
follow kw_not = 3
follow _ = 4

-- A level, applied to the tokens of `ks` and what follows them.
abbrev pub Reads :
    (ℕ → List Token → Result PolicyError (Expr × List Token)) → ℕ → List Kind → Expr → Type 0
Reads level limit ks x =
    (n : ℕ) (f : ℕ → ℕ) (k : Kind) (at : ℕ) (ts : List Token)
    → length ks ≤ n
    → follow k ≤ limit
    → level n (locate f ks ++ (k, at) ∷ ts) ≡ ok (x, (k, at) ∷ ts)

abbrev pub Primary : List Kind → Expr → Type 0
Primary = Reads (λ n. parse_primary (parse_or n)) 3

abbrev pub Negation : List Kind → Expr → Type 0
Negation = Reads (λ n. parse_not (parse_or n)) 2

-- The first operand is read and the loop has made its `c` rounds over the rest of `ks`.
abbrev pub Conjunction : ℕ → List Kind → Expr → Type 0
Conjunction c ks x =
    (n : ℕ) (f : ℕ → ℕ) (j : ℕ) (k : Kind) (at : ℕ) (ts : List Token)
    → length ks ≤ n
    → follow k ≤ 2
    → (parse_not (parse_or n) (locate f ks ++ (k, at) ∷ ts) >>= λ p.
        and_loop (parse_or n) (c + j) p.0 p.1)
      ≡ and_loop (parse_or n) j x ((k, at) ∷ ts)

abbrev pub Disjunction : ℕ → List Kind → Expr → Type 0
Disjunction c ks x =
    (n : ℕ) (f : ℕ → ℕ) (j : ℕ) (k : Kind) (at : ℕ) (ts : List Token)
    → length ks ≤ n
    → follow k ≤ 1
    → (parse_and (parse_or n) (locate f ks ++ (k, at) ∷ ts) >>= λ p.
        or_loop (parse_or n) (c + j) p.0 p.1)
      ≡ or_loop (parse_or n) j x ((k, at) ∷ ts)

-- Where a loop or a tail stops.
comparison_tail-stop :
    (n : ℕ) (x : Expr) (k : Kind) (at : ℕ) (ts : List Token)
    → follow k ≤ 2
    → comparison_tail (parse_or n) x ((k, at) ∷ ts) ≡ ok (x, (k, at) ∷ ts)
unfolding comparison_tail
comparison_tail-stop n x eof at ts h = refl
comparison_tail-stop n x rparen at ts h = refl
comparison_tail-stop n x kw_or at ts h = refl
comparison_tail-stop n x kw_and at ts h = refl
comparison_tail-stop n x _ at ts h = absurd (omega arith)

and_loop-stop :
    (n j : ℕ) (x : Expr) (k : Kind) (at : ℕ) (ts : List Token)
    → follow k ≤ 1
    → and_loop (parse_or n) j x ((k, at) ∷ ts) ≡ ok (x, (k, at) ∷ ts)
unfolding and_loop
and_loop-stop n zero x eof at ts h = refl
and_loop-stop n (suc j) x eof at ts h = refl
and_loop-stop n zero x rparen at ts h = refl
and_loop-stop n (suc j) x rparen at ts h = refl
and_loop-stop n zero x kw_or at ts h = refl
and_loop-stop n (suc j) x kw_or at ts h = refl
and_loop-stop n j x _ at ts h = absurd (omega arith)

or_loop-stop :
    (n j : ℕ) (x : Expr) (k : Kind) (at : ℕ) (ts : List Token)
    → follow k ≤ 0
    → or_loop (parse_or n) j x ((k, at) ∷ ts) ≡ ok (x, (k, at) ∷ ts)
unfolding or_loop
or_loop-stop n zero x eof at ts h = refl
or_loop-stop n (suc j) x eof at ts h = refl
or_loop-stop n zero x rparen at ts h = refl
or_loop-stop n (suc j) x rparen at ts h = refl
or_loop-stop n j x _ at ts h = absurd (omega arith)

-- An operand does not begin with `not`.
abbrev pub StartsOperand : List Kind → Type 0
StartsOperand ks = (k : Kind) × (js : List Kind) × (ks ≡ k ∷ js) × (k ≢ kw_not)

parse_not-operand :
    (n : ℕ) (k : Kind) (at : ℕ) (ts : List Token)
    → k ≢ kw_not
    → parse_not (parse_or n) ((k, at) ∷ ts) ≡ parse_comparison (parse_or n) ((k, at) ∷ ts)
unfolding parse_not
parse_not-operand n kw_not at ts h = absurd (h refl)
parse_not-operand n _ at ts h = refl

parse_not-StartsOperand :
    (n : ℕ) (f : ℕ → ℕ) (ks : List Kind) (ts : List Token)
    → StartsOperand ks
    → parse_not (parse_or n) (locate f ks ++ ts) ≡ parse_comparison (parse_or n) (locate f ks ++ ts)
unfolding locate
parse_not-StartsOperand n f ks ts (k, js, e, h) = rw e (parse_not-operand n k _ _ h)

module _ (ks : List Kind) (x : Expr) where
  pub Negation-Primary : StartsOperand ks → Primary ks x → Negation ks x
  unfolding parse_comparison
  Negation-Primary s p n f k at ts fuel h =
      parse_not-StartsOperand n f ks _ s
      ∙ rw (p n f k at ts fuel (omega arith)) (comparison_tail-stop n x k at ts h)

  pub Conjunction-Negation : Negation ks x → Conjunction 0 ks x
  Conjunction-Negation p n f j k at ts fuel h =
      rw (p n f k at ts fuel h) (ap (λ b. and_loop (parse_or n) b x ((k, at) ∷ ts)) (zero-add j))

  -- The budget of a loop covers its rounds.
  budget :
      (c : ℕ) (f : ℕ → ℕ) (t : Token) (ts : List Token)
      → c ≤ length ks
      → length (locate f ks ++ t ∷ ts) ≡ c + (length (locate f ks ++ t ∷ ts) - c)
  budget c f t ts le = omega (arith, length-append (locate f ks) (t ∷ ts), length-locate f ks)

  pub parse_and-Conjunction :
      (c : ℕ) → c ≤ length ks → Conjunction c ks x → Reads (λ n. parse_and (parse_or n)) 1 ks x
  unfolding parse_and
  parse_and-Conjunction c le p n f k at ts fuel h =
      subst
        (λ b.
          (parse_not (parse_or n) (locate f ks ++ (k, at) ∷ ts) >>= λ p.
          and_loop (parse_or n) b p.0 p.1)
          ≡ ok (x, (k, at) ∷ ts))
        (sym (budget c f (k, at) ts le))
        (p n f _ k at ts fuel (omega arith) ∙ and_loop-stop n _ x k at ts h)

  pub Disjunction-Conjunction : (c : ℕ) → c ≤ length ks → Conjunction c ks x → Disjunction 0 ks x
  Disjunction-Conjunction c le p n f j k at ts fuel h =
      rw (parse_and-Conjunction c le p n f k at ts fuel h)
        (ap (λ b. or_loop (parse_or n) b x ((k, at) ∷ ts)) (zero-add j))

  pub or_level-Disjunction :
      (c : ℕ) → c ≤ length ks → Disjunction c ks x → Reads (λ n. or_level (parse_or n)) 0 ks x
  unfolding or_level
  or_level-Disjunction c le p n f k at ts fuel h =
      subst
        (λ b.
          (parse_and (parse_or n) (locate f ks ++ (k, at) ∷ ts) >>= λ p.
          or_loop (parse_or n) b p.0 p.1)
          ≡ ok (x, (k, at) ∷ ts))
        (sym (budget c f (k, at) ts le))
        (p n f _ k at ts fuel (omega arith) ∙ or_loop-stop n _ x k at ts h)

  -- In parentheses.
  pub Primary-Disjunction :
      (c : ℕ) → c ≤ length ks → Disjunction c ks x → Primary (lparen ∷ (ks ++ rparen ∷ [])) x
  unfolding parse_primary parse_or locate expect_rparen
  Primary-Disjunction c le p zero f k at ts fuel h = absurd (omega arith)
  Primary-Disjunction c le p (suc n) f k at ts fuel h =
      let g = λ (m : ℕ). f (suc m) in
      rw (
        locate-append g ks (rparen ∷ []),
        append_assoc (locate g ks) (locate (shift (length ks) g) (rparen ∷ [])) ((k, at) ∷ ts),
        or_level-Disjunction c le p n g rparen (shift (length ks) g 0) ((k, at) ∷ ts)
            (omega (arith, length-append ks (rparen ∷ []))) (omega arith),
      )

abbrev after : List Kind → (ℕ → ℕ) → ℕ → ℕ
after ks f m = shift (length ks) f m

locate-between :
    (f : ℕ → ℕ) (ks : List Kind) (k : Kind) (js : List Kind) (ts : List Token)
    → locate f (ks ++ k ∷ js) ++ ts
      ≡ locate f ks ++ ((k, after ks f 0) ∷ (locate (λ m. after ks f (suc m)) js ++ ts))
unfolding locate
locate-between f ks k js ts =
    rw (locate-append f ks (k ∷ js))
      (append_assoc (locate f ks) (locate (shift (length ks) f) (k ∷ js)) ts)

module _ (ks js : List Kind) (x y : Expr) where
  pub Negation-not : Negation ks x → Negation (kw_not ∷ ks) (unary "not" x)
  unfolding parse_not locate
  Negation-not p n f k at ts fuel h = rw (p n (λ m. f (suc m)) k at ts (omega arith) h)

  -- The tail of a comparison reads its operator and its second operand.
  comparison_tail-operator :
      (o : Operator)
      → Primary js y
      → (n : ℕ) (g : ℕ → ℕ) (k : Kind) (at : ℕ) (ts : List Token) → length js ≤ n
      → follow k ≤ 2
      → comparison_tail (parse_or n) x (locate g (operator_kinds o ++ js) ++ (k, at) ∷ ts)
        ≡ ok (Expr.binary x (operator_name o) y, (k, at) ∷ ts)
  unfolding comparison_tail locate operator_kinds operator_name
  comparison_tail-operator (compares c) q n g k at ts fuel h =
      rw (q n (λ m. g (suc m)) k at ts fuel (omega arith))
  comparison_tail-operator member q n g k at ts fuel h =
      rw (q n (λ m. g (suc m)) k at ts fuel (omega arith))
  comparison_tail-operator not_member q n g k at ts fuel h =
      rw (q n (λ m. g (suc (suc m))) k at ts fuel (omega arith))

  operator-split :
      (o : Operator) → (k : Kind) × (os : List Kind) × (operator_kinds o ≡ k ∷ os) × (follow k ≤ 3)
  unfolding operator_kinds
  operator-split (compares c) = (cmp c, [], refl, omega arith)
  operator-split member = (kw_in, [], refl, omega arith)
  operator-split not_member = (kw_not, kw_in ∷ [], refl, omega arith)

  parse_primary-operator :
      (o : Operator)
      → Primary ks x
      → (n : ℕ) (f g : ℕ → ℕ) (ts : List Token) → length ks ≤ n
      → parse_primary (parse_or n) (locate f ks ++ (locate g (operator_kinds o ++ js) ++ ts))
        ≡ ok (x, locate g (operator_kinds o ++ js) ++ ts)
  unfolding locate operator_kinds
  parse_primary-operator (compares c) p n f g ts fuel = p n f (cmp c) _ _ fuel (omega arith)
  parse_primary-operator member p n f g ts fuel = p n f kw_in _ _ fuel (omega arith)
  parse_primary-operator not_member p n f g ts fuel = p n f kw_not _ _ fuel (omega arith)

  pub Negation-binary :
      (o : Operator)
      → StartsOperand ks
      → Primary ks x
      → Primary js y
      → Negation (ks ++ (operator_kinds o ++ js)) (Expr.binary x (operator_name o) y)
  unfolding parse_comparison
  Negation-binary o s p q n f k at ts fuel h =
      let l = length-append ks (operator_kinds o ++ js) in
      let m = length-append (operator_kinds o) js in
      rw
        (
          locate-append f ks (operator_kinds o ++ js),
          append_assoc (locate f ks) (locate (shift (length ks) f) (operator_kinds o ++ js))
              ((k, at) ∷ ts),
        )
        (parse_not-StartsOperand n f ks _ s
          ∙ rw
              (parse_primary-operator o p n f (shift (length ks) f) ((k, at) ∷ ts)
                (omega (arith, l)))
              (comparison_tail-operator o q n (shift (length ks) f) k at ts (omega (arith, l, m))
                h))

  pub Conjunction-and :
      (c : ℕ)
      → Conjunction c ks x
      → Negation js y
      → Conjunction (suc c) (ks ++ kw_and ∷ js) (and_expr x y)
  unfolding and_loop
  Conjunction-and c p q n f j k at ts fuel h =
      let l = length-append ks (kw_and ∷ js) in
      let e : suc c + j ≡ c + suc j = omega arith in
      rw (locate-between f ks kw_and js ((k, at) ∷ ts), e)
        (p n f (suc j) kw_and _ _ (omega (arith, l)) (omega arith)
          ∙ rw (q n (λ m. after ks f (suc m)) k at ts (omega (arith, l)) h))

  pub Disjunction-or :
      (c d : ℕ)
      → Disjunction c ks x
      → d ≤ length js
      → Conjunction d js y
      → Disjunction (suc c) (ks ++ kw_or ∷ js) (or_expr x y)
  unfolding or_loop
  Disjunction-or c d p le q n f j k at ts fuel h =
      let l = length-append ks (kw_or ∷ js) in
      let e : suc c + j ≡ c + suc j = omega arith in
      rw (locate-between f ks kw_or js ((k, at) ∷ ts), e)
        (p n f (suc j) kw_or _ _ (omega (arith, l)) (omega arith)
          ∙ rw (
              parse_and-Conjunction js y d le q n (λ m. after ks f (suc m)) k at ts
                (omega (arith, l)) h))
