-- ===== src/Policy/Lex.antt =====
-- `_lex` of src/eitohforge_sdk/core/policy_dsl/parse.py.
use mathlib.Core.List.{map}
use eitoh_forge.Prelude.{
  ℕ, zero, suc, ◌+◌, ◌*◌, ◌-◌, Bool, true, false, ◌&&◌, ◌||◌, not, Option, none, some, List, [],
  ◌∷◌, ◌++◌, if◌then◌else◌, ◌==◌, leb, length, is_empty,
}
use eitoh_forge.Prelude.Text.{isspace}
use eitoh_forge.Prelude.Codes.{Text, codes, text_eq, lower}
use eitoh_forge.Prelude.Int.{signed}
use eitoh_forge.Prelude.Results.{Result, ok, err, ◌>>=◌}
use eitoh_forge.Policy.{
  Number, int, float, Kind, lparen, rparen, dot, cmp, string, number, kw_and, kw_or, kw_not,
  kw_null, kw_true, kw_false, kw_in, ident, eof, eq, ne, lt, gt, le, ge, Token, PolicyError,
  lone_eq, lone_bang, open_escape, open_string, bad_number, bad_character, value_error, out_of_fuel,
}

-- What Python's character tables say of the code points from 128 on. `decimal` is the value of a
-- digit that `int` reads; some characters, such as a superscript two, are digits without one.
pub record Unicode : Type 0 where
  pub alpha : ℕ → Bool
  pub digit : ℕ → Bool
  pub alnum : ℕ → Bool
  pub decimal : ℕ → Option ℕ

abbrev pub is_ascii_digit : ℕ → Bool
is_ascii_digit c = leb b'0' c && leb c b'9'

abbrev pub is_ascii_alpha : ℕ → Bool
is_ascii_alpha c = (leb b'a' c && leb c b'z') || (leb b'A' c && leb c b'Z')

-- The keyword that a word is, in any case, or the identifier.
unfoldable pub word_kind : Text → Kind
unfolding lower
word_kind word =
    let wl = map lower word in
    if text_eq wl (codes "and")
    then kw_and
    else if text_eq wl (codes "or")
    then kw_or
    else if text_eq wl (codes "not")
    then kw_not
    else if text_eq wl (codes "null")
    then kw_null
    else if text_eq wl (codes "true")
    then kw_true
    else if text_eq wl (codes "false")
    then kw_false
    else if text_eq wl (codes "in")
    then kw_in
    else ident word

module _ (u : Unicode) where
  -- c.isdigit()
  unfoldable pub isdigit : ℕ → Bool
  isdigit c = if leb 128 c then u.digit c else is_ascii_digit c

  -- c.isalpha()
  unfoldable pub isalpha : ℕ → Bool
  isalpha c = if leb 128 c then u.alpha c else is_ascii_alpha c

  -- c.isalnum() or c == "_"
  unfoldable pub is_word : ℕ → Bool
  is_word c = (if leb 128 c then u.alnum c else is_ascii_alpha c || is_ascii_digit c) || (c == b'_')

  unfoldable pub decimal_of : ℕ → Option ℕ
  decimal_of c = if leb 128 c then u.decimal c else if is_ascii_digit c then some (c - 48) else none

  -- int(num_s), read from the left onto `acc`
  unfoldable pub read_int : ℕ → Text → Option ℕ
  unfolding decimal_of
  read_int acc [] = some acc
  read_int acc (c ∷ cs) = elim (decimal_of c) [ none ↦ none | some d ↦ read_int (acc * 10 + d) cs ]

  -- Whether `float` accepts the digits of `num_s`.
  unfoldable pub reads_float : Text → Bool
  unfolding decimal_of
  reads_float [] = true
  reads_float (c ∷ cs) = elim (decimal_of c) [
    | none ↦ (c == b'.') && reads_float cs
    | some d ↦ reads_float cs
  ]

  -- The loop over `j` of a number: the text, whether it has a dot, and the rest.
  unfoldable pub scan_number : Bool → Text → Text × Bool × Text
  unfolding isdigit
  scan_number seen_dot [] = ([], seen_dot, [])
  scan_number seen_dot (c ∷ cs) =
      let more = scan_number seen_dot cs in
      let after_dot = scan_number true cs in
      if isdigit c
      then (c ∷ more.0, more.1, more.2)
      else if (c == b'.') && not seen_dot
      then (c ∷ after_dot.0, after_dot.1, after_dot.2)
      else ([], seen_dot, c ∷ cs)

  unfoldable pub number_value : Bool → Text → Bool → Result PolicyError Number
  unfolding read_int reads_float
  number_value negative num_s true =
      if reads_float num_s then ok (float negative num_s) else err value_error
  number_value negative num_s false = elim (read_int 0 num_s) [
    | none ↦ err value_error
    | some n ↦ ok (int (signed negative n))
  ]

  -- `start` is the position of the token, `i` that of its first digit.
  unfoldable pub lex_number : Bool → ℕ → ℕ → Text → Result PolicyError (Option Token × ℕ × Text)
  unfolding scan_number number_value
  lex_number negative start i cs =
      let (num_s, seen_dot, rest) = scan_number false cs in
      if is_empty num_s || text_eq num_s (b'.' ∷ []) then err (bad_number start) else do
        n ← number_value negative num_s seen_dot
        ok (some (number n, start), i + length num_s, rest)

  -- The characters of a word, and the rest.
  unfoldable pub scan_word : Text → Text × Text
  unfolding is_word
  scan_word [] = ([], [])
  scan_word (c ∷ cs) =
      let more = scan_word cs in if is_word c then (c ∷ more.0, more.1) else ([], c ∷ cs)

  unfoldable pub lex_word : ℕ → ℕ → Text → Result PolicyError (Option Token × ℕ × Text)
  unfolding scan_word word_kind
  lex_word i c cs =
      let (tail, rest) = scan_word cs in
      ok (some (word_kind (c ∷ tail), i), i + suc (length tail), rest)

-- The character that an escape stands for.
unfoldable pub unescape : ℕ → ℕ
unescape c = if c == b'n' then 10 else c

-- The string loop, after the opening quote or inside it. `escaped` says that the last character was
-- a backslash.
unfoldable pub lex_string :
    ℕ → ℕ → Bool → ℕ → Text → Text → Result PolicyError (Option Token × ℕ × Text)
unfolding unescape
lex_string quote start true i buf [] = err (open_escape start)
lex_string quote start false i buf [] = err (open_string start)
lex_string quote start true i buf (c ∷ cs) =
    lex_string quote start false (suc i) (buf ++ unescape c ∷ []) cs
lex_string quote start false i buf (c ∷ cs) = elim (c == 92) [
  | true ↦ lex_string quote start true (suc i) buf cs
  | false ↦ elim (c == quote) [
    | true ↦ ok (some (string buf, start), suc i, cs)
    | false ↦ lex_string quote start false (suc i) (buf ++ c ∷ []) cs
  ]
]

unfoldable pub lex_single : ℕ → ℕ → Text → Result PolicyError (Option Token × ℕ × Text)
lex_single i c cs =
    if c == b'<'
    then ok (some (cmp lt, i), suc i, cs)
    else if c == b'>'
    then ok (some (cmp gt, i), suc i, cs)
    else if c == b'='
    then err (lone_eq i)
    else err (lone_bang i)

-- One of `<>=!`, with an equals sign behind it or without one.
unfoldable pub lex_operator : ℕ → ℕ → Text → Result PolicyError (Option Token × ℕ × Text)
unfolding lex_single
lex_operator i c [] = lex_single i c []
lex_operator i c (d ∷ cs) =
    if d == b'='
    then ok (
      some (
        cmp (if c == b'<' then le else if c == b'>' then ge else if c == b'=' then eq else ne),
        i,
      ),
      suc (suc i),
      cs,
    )
    else lex_single i c (d ∷ cs)

-- tokens.append, in front of the tokens of the later rounds
unfoldable pub append_token : Option Token → List Token → List Token
append_token none ts = ts
append_token (some t) ts = t ∷ ts

module _ (u : Unicode) where
  unfoldable pub starts_number : ℕ → Text → Bool
  unfolding isdigit
  starts_number c [] = false
  starts_number c (d ∷ cs) = (c == b'-') && isdigit u d

  -- One round of the loop at `source[i] = c`: the token, if any, the next `i` and the text there.
  unfoldable pub lex_next : ℕ → ℕ → Text → Result PolicyError (Option Token × ℕ × Text)
  unfolding isspace lex_operator lex_string isdigit lex_number isalpha lex_word starts_number
  lex_next i c cs =
      if isspace c
      then ok (none, suc i, cs)
      else if c == b'('
      then ok (some (lparen, i), suc i, cs)
      else if c == b')'
      then ok (some (rparen, i), suc i, cs)
      else if c == b'.'
      then ok (some (dot, i), suc i, cs)
      else if (c == b'<') || (c == b'>') || (c == b'=') || (c == b'!')
      then lex_operator i c cs
      else if (c == 39) || (c == 34)
      then lex_string c i false (suc i) [] cs
      else if isdigit u c
      then lex_number u false i i (c ∷ cs)
      else if starts_number c cs
      then lex_number u true i (suc i) cs
      else if isalpha u c || (c == b'_')
      then lex_word u i c cs
      else err (bad_character i)

  unfoldable pub lex_from : ℕ → ℕ → Text → Result PolicyError (List Token)
  unfolding lex_next append_token
  lex_from fuel i [] = ok ((eof, i) ∷ [])
  lex_from zero i (c ∷ cs) = err out_of_fuel
  lex_from (suc fuel) i (c ∷ cs) = elim (lex_next i c cs) [
    | err e ↦ err e
    | ok (t, i', rest) ↦ elim (lex_from fuel i' rest) [
      | err e ↦ err e
      | ok ts ↦ ok (append_token t ts)
    ]
  ]

  -- _lex
  unfoldable pub lex : Text → Result PolicyError (List Token)
  unfolding lex_from
  lex source = lex_from (length source) 0 source
