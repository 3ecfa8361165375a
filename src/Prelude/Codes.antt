-- ===== src/Prelude/Codes.antt =====
-- Texts that the program walks character by character: lists of code points.
use Prim.Native.Nat.{ℕ, ◌+◌}
use Prim.Native.Char.{code}
use Prim.Native.String.{String}
use mathlib.Core.Path.{◌≡◌}
use mathlib.Core.Logic.{◌↔◌}
use mathlib.Core.Bool.{Bool, true, false, ◌&&◌}
use mathlib.Core.List.{List, [], ◌∷◌}
use native.Mathlib.Omega.{arith}
use eitoh_forge.Prelude.Tests.{◌==◌, leb, if◌then◌else◌}
use eitoh_forge.Prelude.Lists.{is_empty}
use eitoh_forge.Prelude.Text.{isspace}

abbrev pub Text : Type 0
Text = List ℕ

-- The code points of a literal.
abbrev pub codes : String → Text
codes String.[] = []
codes (String.◌∷◌ c s) = code c ∷ codes s

abbrev pub text_eq : Text → Text → Bool
text_eq [] [] = true
text_eq (a ∷ s) (b ∷ t) = (a == b) && text_eq s t
text_eq _ _ = false

-- c.lower() of an ASCII character
unfoldable pub lower : ℕ → ℕ
lower c = if leb b'A' c && leb c b'Z' then c + 32 else c

pub text_eq_iff : (s t : Text) → (text_eq s t ≡ true) ↔ (s ≡ t)
text_eq_iff [] [] = ground arith
text_eq_iff [] (b ∷ t) = ground arith
text_eq_iff (a ∷ s) [] = ground arith
text_eq_iff (a ∷ s) (b ∷ t) = ground (arith, text_eq_iff s t)

unfoldable pub lstrip : Text → Text
unfolding isspace
lstrip [] = []
lstrip (c ∷ s) = let rest = lstrip s in if isspace c then rest else c ∷ s

unfoldable pub rstrip : Text → Text
unfolding isspace
rstrip [] = []
rstrip (c ∷ s) = let rest = rstrip s in if is_empty rest && isspace c then [] else c ∷ rest

-- s.strip()
unfoldable pub strip : Text → Text
unfolding lstrip rstrip
strip s = rstrip (lstrip s)
