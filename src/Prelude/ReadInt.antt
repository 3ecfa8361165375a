-- ===== src/Prelude/ReadInt.antt =====
-- `int` of a text: spaces around it, a sign, at most 4300 ASCII digits with single underscores between
-- them. The digits of other scripts, which Python takes too, are not read.
use Prim.Native.Nat.{ℕ, zero, suc, ◌+◌, ◌-◌, ◌*◌, ◌/◌, ◌%◌, ◌≤◌, ◌<◌}
use Prim.Native.Char.{Char, code}
use Prim.Native.String.{String, ◌++◌ as str_append}
use Prim.Native.String.append
use mathlib.Core.Path.{◌≡◌, refl}
use mathlib.Core.Bool.{Bool, true, false, ◌&&◌}
use mathlib.Core.Option.{Option, none, some}
use native.Mathlib.Omega.{arith}
use eitoh_forge.Prelude.Tests.{leb, ltb, ◌==◌, if◌then◌else◌, if_intro}
use eitoh_forge.Prelude.Text.{isspace, is_blank}
use eitoh_forge.Prelude.Int.{ℤ, pos, signed}
use eitoh_forge.Prelude.Decimal.{
  digit, digit_rule, digits, decimal, read_decimal, read_from, read-decimal,
}

abbrev is_digit : ℕ → Bool
is_digit c = leb 48 c && leb c 57

-- The digits after one (`after`) or after an underscore
unfoldable scan : Bool → ℕ → String → Option ℕ
scan after acc String.[] = if after then some acc else none
scan after acc (String.◌∷◌ c s) =
    let d = code c in
    let rest = scan (is_digit d) (if is_digit d then acc * 10 + (d - 48) else acc) s in
    if is_digit d then rest else if (d == 95) && after then rest else none

abbrev with_sign : Bool → Option ℕ → Option ℤ
with_sign minus none = none
with_sign minus (some n) = some (signed minus n)

abbrev unsigned : String → Option ℤ
unsigned String.[] = none
unsigned (String.◌∷◌ c s) =
    if code c == 45
    then with_sign true (scan false 0 s)
    else if code c == 43
    then with_sign false (scan false 0 s)
    else with_sign false (scan false 0 (String.◌∷◌ c s))

-- The spaces that int takes off: those of isspace, without the ASCII separators 28 to 31
abbrev is_int_space : ℕ → Bool
is_int_space c = if leb 28 c && leb c 31 then false else isspace c

unfoldable trim_left : String → String
unfolding isspace
trim_left String.[] = String.[]
trim_left (String.◌∷◌ c s) =
    let rest = trim_left s in if is_int_space (code c) then rest else String.◌∷◌ c s

unfoldable trim_right : String → String
unfolding isspace
trim_right String.[] = String.[]
trim_right (String.◌∷◌ c s) =
    let rest = trim_right s in
    if is_blank rest && is_int_space (code c) then String.[] else String.◌∷◌ c rest

-- The number of digits; int raises ValueError for more than 4300 of them
unfoldable pub digit_count : String → ℕ
digit_count String.[] = 0
digit_count (String.◌∷◌ c s) = (if is_digit (code c) then 1 else 0) + digit_count s

-- int(s)
unfoldable pub read_int : String → Option ℤ
unfolding trim_left trim_right scan digit_count
read_int s = if leb (digit_count s) 4300 then unsigned (trim_right (trim_left s)) else none

scan_lem : (acc : ℕ) (s : String) (n : ℕ) → read_from acc s ≡ some n → scan true acc s ≡ some n
unfolding scan read_from
scan_lem acc String.[] n h = h
scan_lem acc (String.◌∷◌ c s) n h = ground (arith, h, scan_lem (acc * 10 + (code c - 48)) s n)

trim_right_lem : (acc : ℕ) (s : String) (n : ℕ) → read_from acc s ≡ some n → trim_right s ≡ s
unfolding read_from trim_right isspace
trim_right_lem acc String.[] n h = refl
trim_right_lem acc (String.◌∷◌ c s) n h =
    ground (arith, h, trim_right_lem (acc * 10 + (code c - 48)) s n)

first_digit :
    (acc : ℕ) (c : Char) (s : String) (n : ℕ)
    → read_from acc (String.◌∷◌ c s) ≡ some n
    → is_digit (code c) ≡ true
unfolding read_from
first_digit acc c s n h = ground (arith, h)

trim_left_lem :
    (c : Char) (s : String) → is_digit (code c) ≡ true → trim_left (String.◌∷◌ c s) ≡ String.◌∷◌ c s
unfolding trim_left isspace
trim_left_lem c s h = ground (arith, h)

unsigned_lem :
    (c : Char) (s : String) (n : ℕ)
    → read_from 0 (String.◌∷◌ c s) ≡ some n
    → unsigned (String.◌∷◌ c s) ≡ some (pos n)
unfolding scan read_from
unsigned_lem c s n h = ground (arith, h, scan_lem (code c - 48) s n)

read_int_lem :
    (s : String) (n : ℕ)
    → digit_count s ≤ 4300
    → read_decimal s ≡ some n
    → read_int s ≡ some (pos n)
unfolding read_int read_decimal
read_int_lem String.[] n few h = absurd (ground (arith, h))
read_int_lem (String.◌∷◌ c s) n few h =
    let short : leb (digit_count (String.◌∷◌ c s)) 4300 ≡ true = ground (arith, few) in
    rw (short, trim_left_lem c s (first_digit 0 c s n h), trim_right_lem 0 (String.◌∷◌ c s) n h)
      (unsigned_lem c s n h)

-- 10 ^ k
abbrev tens : ℕ → ℕ
tens zero = 1
tens (suc k) = 10 * tens k

digit_count-digit : (d : ℕ) → digit_count (digit d) ≡ 1
unfolding digit_count
digit_count-digit d =
    digit_rule (λ s. digit_count s ≡ 1) d refl refl refl refl refl refl refl refl refl refl

digit_count-append : (s t : String) → digit_count (str_append s t) ≡ digit_count s + digit_count t
unfolding digit_count
digit_count-append String.[] t = rw (append.nil t) (omega arith)
digit_count-append (String.◌∷◌ c s) t =
    rw (append.cons c s t) (omega (arith, digit_count-append s t))

digit_count-digits : (k fuel n : ℕ) → n < tens (suc k) → digit_count (digits fuel n) ≤ suc k
unfolding digits
digit_count-digits k zero n h = omega (arith, digit_count-digit n)
digit_count-digits zero (suc fuel) n h =
    if_intro (λ s. digit_count s ≤ 1) (ltb n 10) _ _ (λ e. omega (arith, digit_count-digit n))
      (λ e. absurd (ground (arith, h, e)))
digit_count-digits (suc k) (suc fuel) n h =
    if_intro (λ s. digit_count s ≤ suc (suc k)) (ltb n 10) _ _
      (λ e. omega (arith, digit_count-digit n))
      (λ e. omega (
        arith,
        digit_count-append (digits fuel (n / 10)) (digit (n % 10)),
        digit_count-digit (n % 10),
        digit_count-digits k fuel (n / 10) (omega (arith, h)),
      ))

-- int(str(n)) == n, for a number of at most 4300 digits; 12 are enough for the times of a datetime
pub read_int-decimal : (n : ℕ) → n < 1000000000000 → read_int (decimal n) ≡ some (pos n)
unfolding decimal
read_int-decimal n h =
    let few = digit_count-digits 11 n n h in
    read_int_lem (decimal n) n (omega (arith, few)) (read-decimal n)

pub read_int_not_blank : (s : String) (z : ℤ) → read_int s ≡ some z → is_blank s ≡ false
unfolding read_int trim_left trim_right
read_int_not_blank String.[] z h = absurd (ground (arith, h))
read_int_not_blank (String.◌∷◌ c s) z h = refl
