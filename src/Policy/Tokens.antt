-- ===== src/Policy/Tokens.antt =====
-- The lexer always ends, with tokens that the parser can take or with an error of the source; so
-- does `parse_expr`.
use eitoh_forge.Prelude.{
  ℕ, zero, suc, ◌≤◌, ◌≡◌, ◌≢◌, refl, true, false, Bool, Option, none, some, List, [], ◌∷◌, length,
  arith, if_intro, elim_intro, Option-cases, ◌==◌, is_empty, inl, inr, ◌||◌,
}
use eitoh_forge.Prelude.Text.{isspace}
use eitoh_forge.Prelude.Codes.{Text, text_eq, strip}
use eitoh_forge.Prelude.Results.{Result, ok, err, ◌>>=◌}
use eitoh_forge.Policy.{Number, Kind, number, eof, Token, PolicyError, value_error}
use eitoh_forge.Policy.Lex.{
  Unicode, isdigit, isalpha, scan_number, number_value, read_int, reads_float, lex_number,
  scan_word, word_kind, lex_word, lex_string, lex_single, lex_operator, starts_number, lex_next,
  append_token, lex_from, lex,
}
use eitoh_forge.Policy.Parse.{parse, parse_expr}
use eitoh_forge.Policy.Total.{IsEnded, IsRaised, Answers, parse-Answers}

-- One round: an error of the source, or a token other than the end and at most `b` characters left.
abbrev Proceeds : ℕ → Result PolicyError (Option Token × ℕ × Text) → Type 0
Proceeds b (err e) = IsRaised e
Proceeds b (ok (none, i, rest)) = length rest ≤ b
Proceeds b (ok (some (k, at), i, rest)) = (k ≢ eof) × (length rest ≤ b)

Proceeds-mono :
    {a b : ℕ} (r : Result PolicyError (Option Token × ℕ × Text))
    → a ≤ b
    → Proceeds a r
    → Proceeds b r
Proceeds-mono (err e) le h = h
Proceeds-mono (ok (none, i, rest)) le h = omega arith
Proceeds-mono (ok (some (k, at), i, rest)) le (n, h) = (n, omega arith)

word_kind-ne-eof : (word : Text) → word_kind word ≢ eof
unfolding word_kind
word_kind-ne-eof word = ground arith

lex_single-Proceeds : (i c : ℕ) (cs : Text) → Proceeds (length cs) (lex_single i c cs)
unfolding lex_single
lex_single-Proceeds i c cs =
    if_intro (Proceeds _) (c == b'<') _ _ (λ _. ((λ e. cc), omega arith))
      λ _.
        if_intro (Proceeds _) (c == b'>') _ _ (λ _. ((λ e. cc), omega arith))
          λ _. if_intro (Proceeds _) (c == b'=') _ _ (λ _. tt) λ _. tt

lex_operator-Proceeds : (i c : ℕ) (cs : Text) → Proceeds (length cs) (lex_operator i c cs)
unfolding lex_operator
lex_operator-Proceeds i c [] = lex_single-Proceeds i c []
lex_operator-Proceeds i c (d ∷ cs) =
    if_intro (Proceeds _) (d == b'=') _ _ (λ _. ((λ e. cc), omega arith))
      λ _. lex_single-Proceeds i c (d ∷ cs)

lex_string-Proceeds :
    (quote start : ℕ) (escaped : Bool) (i : ℕ) (buf cs : Text)
    → Proceeds (length cs) (lex_string quote start escaped i buf cs)
unfolding lex_string
lex_string-Proceeds quote start true i buf [] = tt
lex_string-Proceeds quote start false i buf [] = tt
lex_string-Proceeds quote start true i buf (c ∷ cs) =
    Proceeds-mono _ (omega arith) (lex_string-Proceeds quote start false _ _ cs)
lex_string-Proceeds quote start false i buf (c ∷ cs) =
    elim_intro (Proceeds _) (c == 92) _ _
      (λ _. Proceeds-mono _ (omega arith) (lex_string-Proceeds quote start true _ buf cs))
      λ _.
        elim_intro (Proceeds _) (c == quote) _ _ (λ _. ((λ e. cc), omega arith))
          λ _. Proceeds-mono _ (omega arith) (lex_string-Proceeds quote start false _ _ cs)

module _ (u : Unicode) where
  length-scan_word : (cs : Text) → length (scan_word u cs).1 ≤ length cs
  unfolding scan_word
  length-scan_word [] = omega arith
  length-scan_word (c ∷ cs) = ground (arith, length-scan_word cs)

  length-scan_number : (seen : Bool) (cs : Text) → length (scan_number u seen cs).2 ≤ length cs
  unfolding scan_number
  length-scan_number seen [] = omega arith
  length-scan_number seen (c ∷ cs) =
      ground (arith, length-scan_number seen cs, length-scan_number true cs)

  -- A number that begins with a digit is not empty.
  length-scan_number_digit :
      (c : ℕ) (cs : Text) → isdigit u c ≡ true → length (scan_number u false (c ∷ cs)).2 ≤ length cs
  unfolding scan_number
  length-scan_number_digit c cs h = rw h (length-scan_number false cs)

  number_value-IsRaised :
      (negative : Bool) (num_s : Text) (seen : Bool) → Answers (number_value u negative num_s seen)
  unfolding number_value
  number_value-IsRaised negative num_s true =
      if_intro Answers (reads_float u num_s) _ _ (λ _. tt) (λ _. tt)
  number_value-IsRaised negative num_s false = elim (Option-cases (read_int u 0 num_s)) [
    | inl e ↦ rw (e, number_value) tt
    | inr (n, e) ↦ rw (e, number_value) tt
  ]

  number-Proceeds :
      (b : ℕ) (r : Result PolicyError Number) (start i : ℕ) (rest : Text)
      → Answers r
      → length rest ≤ b
      → Proceeds b (r >>= λ n. ok (some (number n, start), i, rest))
  number-Proceeds b (ok n) start i rest h l = ((λ e. cc), l)
  number-Proceeds b (err e) start i rest h l = h

  lex_number-Proceeds :
      (negative : Bool) (start i b : ℕ) (cs : Text)
      → length (scan_number u false cs).2 ≤ b
      → Proceeds b (lex_number u negative start i cs)
  unfolding lex_number
  lex_number-Proceeds negative start i b cs h =
      if_intro (Proceeds b)
        (is_empty (scan_number u false cs).0 || text_eq (scan_number u false cs).0 (b'.' ∷ [])) _ _
        (λ _. tt)
        λ _.
          number-Proceeds b _ start _ _
            (number_value-IsRaised negative (scan_number u false cs).0 (scan_number u false cs).1) h

  lex_next-Proceeds : (i c : ℕ) (cs : Text) → Proceeds (length cs) (lex_next u i c cs)
  unfolding lex_next lex_word
  lex_next-Proceeds i c cs =
      let skip = if_intro (Proceeds (length cs)) in
      skip (isspace c) _ _ (λ _. omega arith)
        λ _.
          skip (c == b'(') _ _ (λ _. ((λ e. cc), omega arith))
            λ _.
              skip (c == b')') _ _ (λ _. ((λ e. cc), omega arith))
                λ _.
                  skip (c == b'.') _ _ (λ _. ((λ e. cc), omega arith))
                    λ _.
                      skip ((c == b'<') || (c == b'>') || (c == b'=') || (c == b'!')) _ _
                        (λ _. lex_operator-Proceeds i c cs)
                        λ _.
                          skip ((c == 39) || (c == 34)) _ _
                            (λ _. lex_string-Proceeds c i false _ [] cs)
                            λ _.
                              skip (isdigit u c) _ _
                                (λ h.
                                  lex_number-Proceeds false i i _ (c ∷ cs)
                                    (length-scan_number_digit c cs h))
                                λ _.
                                  skip (starts_number u c cs) _ _
                                    (λ _.
                                      lex_number-Proceeds true i _ _ cs
                                        (length-scan_number false cs))
                                    λ _.
                                      skip (isalpha u c || (c == b'_')) _ _
                                        (λ _. (
                                          word_kind-ne-eof (c ∷ (scan_word u cs).0),
                                          length-scan_word cs,
                                        ))
                                        λ _. tt

-- The lexer's result: tokens that end properly, or an error of the source.
abbrev pub LexEnds : Result PolicyError (List Token) → Type 0
LexEnds (err e) = IsRaised e
LexEnds (ok ts) = IsEnded ts

cons-IsEnded : (k : Kind) (at : ℕ) (ts : List Token) → k ≢ eof → IsEnded ts → IsEnded ((k, at) ∷ ts)
cons-IsEnded k at [] n h = absurd h
cons-IsEnded k at (t ∷ ts) n h = (n, h)

-- The tokens behind a round.
append_token-LexEnds :
    (t : Option Token) (r : Result PolicyError (List Token))
    → ((k : Kind) (at : ℕ) → t ≡ some (k, at) → k ≢ eof)
    → LexEnds r
    → LexEnds (elim r [ err e ↦ err e | ok ts ↦ ok (append_token t ts) ])
unfolding append_token
append_token-LexEnds t (err e) n h = h
append_token-LexEnds none (ok ts) n h = h
append_token-LexEnds (some (k, at)) (ok ts) n h = cons-IsEnded k at ts (n k at refl) h

module _ (u : Unicode) where
  lex_from-LexEnds : (fuel i : ℕ) (cs : Text) → length cs ≤ fuel → LexEnds (lex_from u fuel i cs)
  unfolding lex_from
  lex_from-LexEnds fuel i [] l = refl
  lex_from-LexEnds zero i (c ∷ cs) l = absurd (omega arith)
  lex_from-LexEnds (suc fuel) i (c ∷ cs) l =
      go (lex_next u i c cs) (lex_next-Proceeds u i c cs) (lex_from-LexEnds fuel)
    where
      go :
          (r : Result PolicyError (Option Token × ℕ × Text))
          → Proceeds (length cs) r
          → ((i : ℕ) (rest : Text) → length rest ≤ fuel → LexEnds (lex_from u fuel i rest))
          → LexEnds (elim r [
            | err e ↦ err e
            | ok (t, i', rest) ↦ elim (lex_from u fuel i' rest) [
              | err e ↦ err e
              | ok ts ↦ ok (append_token t ts)
            ]
          ])
      go (err e) h rec = h
      go (ok (none, i', rest)) h rec =
          append_token-LexEnds none _ (λ k at e. cc) (rec i' rest (omega arith))
      go (ok (some (k, at), i', rest)) (n, h) rec =
          append_token-LexEnds (some (k, at)) _ (λ k' at' e z. n (cc)) (rec i' rest (omega arith))

  -- The lexer ends on every text, with tokens of which the last one and no other is the end of the
  -- input, or with an error of the source.
  pub lex-LexEnds : (source : Text) → LexEnds (lex u source)
  unfolding lex
  lex-LexEnds source = lex_from-LexEnds (length source) 0 source (omega arith)

  parse-bind : (r : Result PolicyError (List Token)) → LexEnds r → Answers (r >>= λ ts. parse ts)
  parse-bind (err e) h = h
  parse-bind (ok ts) h = parse-Answers ts h

  -- `parse_expr` ends on every text, with an expression or with an error that the source raises.
  pub parse_expr-Answers : (source : Text) → Answers (parse_expr u source)
  unfolding parse_expr
  parse_expr-Answers source =
      if_intro Answers (is_empty (strip source)) _ _ (λ _. tt)
        λ _. parse-bind (lex u (strip source)) (lex-LexEnds (strip source))

module _ (u : Unicode) where
  number_value-not_decimal :
      (c : ℕ) (cs : Text) (negative seen : Bool)
      → 128 ≤ c
      → u.decimal c ≡ none
      → number_value u negative (c ∷ cs) seen ≡ err value_error
  unfolding number_value
  number_value-not_decimal c cs negative true h d = ground arith
  number_value-not_decimal c cs negative false h d = ground arith

  lex_number-not_decimal :
      (start c : ℕ) (cs : Text)
      → 128 ≤ c
      → u.digit c ≡ true
      → u.decimal c ≡ none
      → lex_number u false start start (c ∷ cs) ≡ err value_error
  unfolding isdigit scan_number lex_number
  lex_number-not_decimal start c cs h g d = ground (
    arith,
    number_value-not_decimal c (scan_number u false cs).0 false (scan_number u false cs).1,
  )

  digit_test : (c : ℕ) → 128 ≤ c → u.digit c ≡ true → isdigit u c ≡ false → ⊥
  unfolding isdigit
  digit_test c h g e = ground arith

  lex_next-not_decimal :
      (c : ℕ) (cs : Text)
      → 128 ≤ c
      → isspace c ≡ false
      → u.digit c ≡ true
      → u.decimal c ≡ none
      → lex_next u 0 c cs ≡ err value_error
  unfolding lex_next
  lex_next-not_decimal c cs h s g d =
      let skip = if_intro (λ r. r ≡ err value_error) in
      skip (isspace c) _ _ (λ e. absurd (cc (s, e)))
        λ _.
          skip (c == b'(') _ _ (λ e. absurd (ground arith))
            λ _.
              skip (c == b')') _ _ (λ e. absurd (ground arith))
                λ _.
                  skip (c == b'.') _ _ (λ e. absurd (ground arith))
                    λ _.
                      skip ((c == b'<') || (c == b'>') || (c == b'=') || (c == b'!')) _ _
                        (λ e. absurd (ground arith))
                        λ _.
                          skip ((c == 39) || (c == 34)) _ _ (λ e. absurd (ground arith))
                            λ _.
                              skip (isdigit u c) _ _ (λ _. lex_number-not_decimal 0 c cs h g d)
                                λ e. absurd (digit_test c h g e)

  -- A text that begins with a digit from 128 on which is no decimal, such as a superscript two, ends
  -- the lexer with the `ValueError` of `int` or `float` and not with a syntax error.
  pub lex-not_decimal :
      (c : ℕ) (cs : Text)
      → 128 ≤ c
      → isspace c ≡ false
      → u.digit c ≡ true
      → u.decimal c ≡ none
      → lex u (c ∷ cs) ≡ err value_error
  unfolding lex lex_from
  lex-not_decimal c cs h s g d = rw (lex_next-not_decimal c cs h s g d, lex_from)
