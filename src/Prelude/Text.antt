-- ===== src/Prelude/Text.antt =====
-- What the program uses of Python's `str`: `isspace` of one character (the whole Unicode set) and
-- `strip`.
use Prim.Native.Char.{Char, code}
use Prim.Native.String.{String, ◌++◌ as str_append}
use Prim.Native.Nat.{ℕ, ◌+◌}
use mathlib.Core.Bool.{Bool, true, false, ◌&&◌, ◌||◌}
use mathlib.Core.List.{List, [], ◌∷◌}
use mathlib.Core.Path.{◌≡◌, refl, ap, ◌∙◌}
use native.Mathlib.Omega.{arith}
use Prim.Native.String.append
use text.Mathlib.TextLemmas.{append_assoc}
use eitoh_forge.Prelude.Tests.{leb, ◌==◌, if◌then◌else◌, if_intro}

-- c.isspace()
unfoldable pub isspace : ℕ → Bool
isspace c =
    (leb 9 c && leb c 13)
    || (leb 28 c && leb c 32)
    || (c == 0x85)
    || (c == 0xa0)
    || (c == 0x1680)
    || (leb 0x2000 c && leb c 0x200a)
    || (c == 0x2028)
    || (c == 0x2029)
    || (c == 0x202f)
    || (c == 0x205f)
    || (c == 0x3000)

abbrev pub is_blank : String → Bool
is_blank String.[] = true
is_blank (String.◌∷◌ c s) = false

unfoldable pub lstrip : String → String
unfolding isspace
lstrip String.[] = String.[]
lstrip (String.◌∷◌ c s) = let rest = lstrip s in if isspace (code c) then rest else String.◌∷◌ c s

unfoldable pub rstrip : String → String
unfolding isspace
rstrip String.[] = String.[]
rstrip (String.◌∷◌ c s) =
    let rest = rstrip s in
    if is_blank rest && isspace (code c) then String.[] else String.◌∷◌ c rest

-- s.strip()
unfoldable pub strip : String → String
unfolding lstrip rstrip
strip s = rstrip (lstrip s)

-- s.startswith(p)
unfoldable pub startswith : String → String → Bool
startswith s String.[] = true
startswith String.[] (String.◌∷◌ c p) = false
startswith (String.◌∷◌ d s) (String.◌∷◌ c p) = (code d == code c) && startswith s p

-- len(s)
unfoldable pub length_of : String → ℕ
length_of String.[] = 0
length_of (String.◌∷◌ c s) = 1 + length_of s

-- Whether no character of the text has the code `d`.
abbrev pub lacks : ℕ → String → Bool
lacks d String.[] = true
lacks d (String.◌∷◌ c s) = if code c == d then false else lacks d s

-- Whether all characters are ASCII.
unfoldable pub is_ascii : String → Bool
is_ascii String.[] = true
is_ascii (String.◌∷◌ c s) = leb (code c) 127 && is_ascii s

-- Whether all characters are visible ASCII ones: no spaces and no controls.
unfoldable pub is_visible : String → Bool
is_visible String.[] = true
is_visible (String.◌∷◌ c s) = leb 33 (code c) && leb (code c) 126 && is_visible s

abbrev pub extend_first : Char → List String → List String
extend_first c [] = String.◌∷◌ c String.[] ∷ []
extend_first c (part ∷ parts) = String.◌∷◌ c part ∷ parts

-- s.split(d) for one character
unfoldable pub split : ℕ → String → List String
split d String.[] = String.[] ∷ []
split d (String.◌∷◌ c s) =
    let rest = split d s in if code c == d then String.[] ∷ rest else extend_first c rest

pub split-lacks : (d : ℕ) (s : String) → lacks d s ≡ true → split d s ≡ s ∷ []
unfolding split
split-lacks d String.[] h = refl
split-lacks d (String.◌∷◌ c s) h = ground (arith, split-lacks d s)

lead :
    (c : Char) (t : String)
    → code c ≡ 46
    → split 46 (str_append (String.◌∷◌ c "") t) ≡ "" ∷ split 46 t
unfolding split
lead c t h = rw (append.cons c "" t, append.nil t) (ground arith)

-- A text without the separator, then the separator, is the first part.
pub split-append :
    (s t : String) → lacks 46 s ≡ true → split 46 (str_append (str_append s ".") t) ≡ s ∷ split 46 t
unfolding split
split-append String.[] t h = rw (append.nil ".") (lead _ t refl)
split-append (String.◌∷◌ c s) t h =
    rw (append.cons c s ".", append.cons c (str_append s ".") t) (ground (arith, split-append s t))

-- Three parts with separators between them
pub split-three :
    (a b c : String)
    → lacks 46 a ≡ true
    → lacks 46 b ≡ true
    → lacks 46 c ≡ true
    → split 46 (str_append (str_append (str_append (str_append a ".") b) ".") c) ≡ a ∷ b ∷ c ∷ []
split-three a b c ha hb hc =
    let front = str_append a "." in
    rw
      (
        append_assoc front b ".",
        append_assoc front (str_append b ".") c,
        split-append a _ ha,
        split-append b c hb,
        split-lacks 46 c hc,
      )
      refl

-- No space at the beginning
abbrev leads : String → Bool
leads String.[] = true
leads (String.◌∷◌ c s) = if isspace (code c) then false else true

leads-lstrip : (s : String) → leads (lstrip s) ≡ true
unfolding lstrip
leads-lstrip String.[] = refl
leads-lstrip (String.◌∷◌ c s) = ground (arith, leads-lstrip s)

lstrip_of_leads : (s : String) → leads s ≡ true → lstrip s ≡ s
unfolding lstrip
lstrip_of_leads String.[] h = refl
lstrip_of_leads (String.◌∷◌ c s) h = ground arith

leads-rstrip : (s : String) → leads s ≡ true → leads (rstrip s) ≡ true
unfolding rstrip
leads-rstrip String.[] h = refl
leads-rstrip (String.◌∷◌ c s) h = ground arith

rstrip_twice : (s : String) → rstrip (rstrip s) ≡ rstrip s
unfolding rstrip
rstrip_twice String.[] = refl
rstrip_twice (String.◌∷◌ c s) =
    if_intro (λ t. rstrip t ≡ t) (is_blank (rstrip s) && isspace (code c)) _ _ (λ e. refl)
      (λ e. rw (rstrip_twice s, e) refl)

-- s.strip().strip() == s.strip()
pub strip_twice : (s : String) → strip (strip s) ≡ strip s
unfolding strip
strip_twice s =
    ap rstrip (lstrip_of_leads (rstrip (lstrip s)) (leads-rstrip (lstrip s) (leads-lstrip s)))
    ∙ rstrip_twice (lstrip s)
