-- ===== src/Prelude/Given.antt =====
-- Optional texts, where Python's `or` takes an empty text for a missing one.
use Prim.Native.String.{String}
use mathlib.Core.Path.{◌≡◌}
use mathlib.Core.Bool.{true, false}
use mathlib.Core.Option.{Option, none, some}
use native.Mathlib.Omega.{arith}
use eitoh_forge.Prelude.Text.{is_blank}

-- The text is there and not empty.
abbrev pub Given : Option String → String → Type 0
Given o s = (o ≡ some s) × (is_blank s ≡ false)

-- There is no text, or an empty one.
abbrev pub Missing : Option String → Type 0
Missing o = (s : String) → o ≡ some s → is_blank s ≡ true

pub Missing-none : Missing none
Missing-none s h = absurd cc

pub Missing-some : (t : String) → is_blank t ≡ true → Missing (some t)
Missing-some t b s h = ground (arith, b, h)
