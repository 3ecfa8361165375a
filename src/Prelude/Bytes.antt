-- ===== src/Prelude/Bytes.antt =====
-- Bytes, `s.encode("utf-8")` and `hmac.compare_digest` of two texts.
use Prim.Native.Nat.{ℕ, ◌+◌, ◌/◌, ◌%◌}
use Prim.Native.Char.{code}
use Prim.Native.String.{String}
use mathlib.Core.Path.{◌≡◌, subst}
use mathlib.Core.Logic.{◌↔◌}
use mathlib.Core.Bool.{Bool, true, ◌&&◌}
use mathlib.Core.Option.{Option, none, some}
use mathlib.Core.List.{List, [], ◌∷◌, ◌++◌}
use native.Mathlib.Omega.{arith}
use text.Mathlib.Text.{◌==◌ as str_eq}
use text.Mathlib.TextEquality.{eq_iff}
use eitoh_forge.Prelude.Tests.{ltb, if◌then◌else◌}
use eitoh_forge.Prelude.Text.{is_ascii}

abbrev pub Bytes : Type 0
Bytes = List ℕ

abbrev utf8_of : ℕ → Bytes
utf8_of c =
    if ltb c 0x80
    then c ∷ []
    else if ltb c 0x800
    then (0xc0 + c / 64) ∷ (0x80 + c % 64) ∷ []
    else if ltb c 0x10000
    then (0xe0 + c / 4096) ∷ (0x80 + (c / 64) % 64) ∷ (0x80 + c % 64) ∷ []
    else (0xf0 + c / 262144)
      ∷ (0x80 + (c / 4096) % 64)
      ∷ (0x80 + (c / 64) % 64)
      ∷ (0x80 + c % 64)
      ∷ []

-- s.encode("utf-8")
unfoldable pub utf8 : String → Bytes
utf8 String.[] = []
utf8 (String.◌∷◌ c s) = utf8_of (code c) ++ utf8 s

-- hmac.compare_digest(a, b); `none` is the TypeError of a text that is not ASCII
unfoldable pub compare_digest : String → String → Option Bool
compare_digest a b = if is_ascii a && is_ascii b then some (str_eq a b) else none

pub compare_digest_iff :
    (a b : String) → is_ascii a ≡ true → (compare_digest a b ≡ some true) ↔ (a ≡ b)
unfolding compare_digest
compare_digest_iff a b h =
    let same : a ≡ b → is_ascii b ≡ true = λ e. subst (λ s. is_ascii s ≡ true) e h in
    ground (arith, eq_iff a b, same)
