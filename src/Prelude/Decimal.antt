-- ===== src/Prelude/Decimal.antt =====
-- `str` of a number that is not negative, and `int` of a text of ASCII digits.
use Prim.Native.Nat.{ℕ, zero, suc, ◌+◌, ◌-◌, ◌*◌, ◌/◌, ◌%◌, ◌≤◌, ◌<◌}
use Prim.Native.Char.{code}
use Prim.Native.String.{String, ◌++◌ as str_append}
use Prim.Native.String.append
use mathlib.Core.Path.{◌≡◌, refl, ap, ◌∙◌}
use mathlib.Core.Bool.{true, false, ◌&&◌}
use mathlib.Core.Logic.{inl, inr}
use mathlib.Core.Option.{Option, none, some}
use native.Mathlib.Omega.{arith}
use eitoh_forge.Prelude.Tests.{leb, ltb, ◌==◌, if◌then◌else◌, Bool-cases, if_intro}
use eitoh_forge.Prelude.Text.{is_blank, is_visible}

abbrev pub digit : ℕ → String
digit d =
    if d == 0
    then "0"
    else if d == 1
    then "1"
    else if d == 2
    then "2"
    else if d == 3
    then "3"
    else if d == 4
    then "4"
    else if d == 5
    then "5"
    else if d == 6
    then "6"
    else if d == 7
    then "7"
    else if d == 8
    then "8"
    else "9"

-- Fuel for the number of digits less one
unfoldable pub digits : ℕ → ℕ → String
digits zero n = digit n
digits (suc fuel) n =
    let more = digits fuel (n / 10) in
    if ltb n 10 then digit n else str_append more (digit (n % 10))

-- str(n)
unfoldable pub decimal : ℕ → String
unfolding digits
decimal n = digits n n

unfoldable pub read_from : ℕ → String → Option ℕ
read_from acc String.[] = some acc
read_from acc (String.◌∷◌ c s) =
    let rest = read_from (acc * 10 + (code c - 48)) s in
    if leb 48 (code c) && leb (code c) 57 then rest else none

-- int(s), for a text of ASCII digits and no other character
unfoldable pub read_decimal : String → Option ℕ
unfolding read_from
read_decimal s = if is_blank s then none else read_from 0 s

abbrev shift : ℕ → Option ℕ → Option ℕ
shift d none = none
shift d (some v) = some (v * 10 + d)

read_digit : (acc d : ℕ) → d < 10 → read_from acc (digit d) ≡ some (acc * 10 + d)
unfolding read_from
read_digit acc d h =
    if_intro (λ s. read_from acc s ≡ some (acc * 10 + d)) (d == 0) _ _ (λ e. ground arith)
      (λ n0.
        if_intro (λ s. read_from acc s ≡ some (acc * 10 + d)) (d == 1) _ _ (λ e. ground arith)
          (λ n1.
            if_intro (λ s. read_from acc s ≡ some (acc * 10 + d)) (d == 2) _ _ (λ e. ground arith)
              (λ n2.
                if_intro (λ s. read_from acc s ≡ some (acc * 10 + d)) (d == 3) _ _
                  (λ e. ground arith)
                  (λ n3.
                    if_intro (λ s. read_from acc s ≡ some (acc * 10 + d)) (d == 4) _ _
                      (λ e. ground arith)
                      (λ n4.
                        if_intro (λ s. read_from acc s ≡ some (acc * 10 + d)) (d == 5) _ _
                          (λ e. ground arith)
                          (λ n5.
                            if_intro (λ s. read_from acc s ≡ some (acc * 10 + d)) (d == 6) _ _
                              (λ e. ground arith)
                              (λ n6.
                                if_intro (λ s. read_from acc s ≡ some (acc * 10 + d)) (d == 7) _ _
                                  (λ e. ground arith)
                                  (λ n7.
                                    if_intro (λ s. read_from acc s ≡ some (acc * 10 + d)) (d == 8) _
                                      _ (λ e. ground arith) (λ n8. ground arith)))))))))

read_from-append :
    (acc d : ℕ) (s : String)
    → d < 10
    → read_from acc (str_append s (digit d)) ≡ shift d (read_from acc s)
unfolding read_from
read_from-append acc d String.[] h = rw (append.nil (digit d)) (read_digit acc d h)
read_from-append acc d (String.◌∷◌ c s) h =
    rw (append.cons c s (digit d))
      (ground (arith, read_from-append (acc * 10 + (code c - 48)) d s h))

read_from-digits : (fuel n : ℕ) → n ≤ fuel → read_from 0 (digits fuel n) ≡ some n
unfolding digits
read_from-digits zero n h = read_digit 0 n (omega arith) ∙ ap some (omega arith)
read_from-digits (suc fuel) n h = elim (Bool-cases (ltb n 10)) [
  | inl e ↦ rw e (read_digit 0 n (ground arith) ∙ ap some (omega arith))
  | inr e ↦ rw e (
      read_from-append 0 (n % 10) (digits fuel (n / 10)) (omega arith)
      ∙ rw (read_from-digits fuel (n / 10) (ground arith)) (ap some (omega arith)))
]

-- To prove something of every digit.
pub digit_rule {ℓ} :
    (P : String → Type ℓ) (d : ℕ)
    → P "0"
    → P "1"
    → P "2"
    → P "3"
    → P "4"
    → P "5"
    → P "6"
    → P "7"
    → P "8"
    → P "9"
    → P (digit d)
digit_rule P d p0 p1 p2 p3 p4 p5 p6 p7 p8 p9 =
    if_intro P (d == 0) _ _ (λ e. p0)
      (λ e.
        if_intro P (d == 1) _ _ (λ e. p1)
          (λ e.
            if_intro P (d == 2) _ _ (λ e. p2)
              (λ e.
                if_intro P (d == 3) _ _ (λ e. p3)
                  (λ e.
                    if_intro P (d == 4) _ _ (λ e. p4)
                      (λ e.
                        if_intro P (d == 5) _ _ (λ e. p5)
                          (λ e.
                            if_intro P (d == 6) _ _ (λ e. p6)
                              (λ e.
                                if_intro P (d == 7) _ _ (λ e. p7)
                                  (λ e. if_intro P (d == 8) _ _ (λ e. p8) (λ e. p9)))))))))

digit_lem : (d : ℕ) → is_blank (digit d) ≡ false
digit_lem d =
    digit_rule (λ s. is_blank s ≡ false) d refl refl refl refl refl refl refl refl refl refl

is_blank-append : (s t : String) → is_blank t ≡ false → is_blank (str_append s t) ≡ false
is_blank-append String.[] t h = rw (append.nil t) h
is_blank-append (String.◌∷◌ c s) t h = rw (append.cons c s t) refl

digits_lem : (fuel n : ℕ) → is_blank (digits fuel n) ≡ false
unfolding digits
digits_lem zero n = digit_lem n
digits_lem (suc fuel) n =
    if_intro (λ s. is_blank s ≡ false) (ltb n 10) _ _ (λ e. digit_lem n)
      (λ e. is_blank-append (digits fuel (n / 10)) (digit (n % 10)) (digit_lem (n % 10)))

-- int(str(n)) == n
pub read-decimal : (n : ℕ) → read_decimal (decimal n) ≡ some n
unfolding read_decimal decimal
read-decimal n = rw (digits_lem n n) (read_from-digits n n (omega arith))

pub decimal_lem : (n : ℕ) → is_blank (decimal n) ≡ false
unfolding decimal
decimal_lem n = digits_lem n n

read_from-visible : (acc : ℕ) (s : String) (n : ℕ) → read_from acc s ≡ some n → is_visible s ≡ true
unfolding read_from is_visible
read_from-visible acc String.[] n h = refl
read_from-visible acc (String.◌∷◌ c s) n h =
    ground (arith, h, read_from-visible (acc * 10 + (code c - 48)) s n)

pub decimal-visible : (n : ℕ) → is_visible (decimal n) ≡ true
unfolding decimal
decimal-visible n = read_from-visible 0 (digits n n) n (read_from-digits n n (omega arith))
