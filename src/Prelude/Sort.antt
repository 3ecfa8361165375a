-- ===== src/Prelude/Sort.antt =====
-- Python's stable sort, as an insertion sort, and `sorted` of a set of strings.
use Prim.Native.String.{String, compare}
use Prim.Native.Nat.{Ordering}
use mathlib.Core.Path.{◌≡◌, refl}
use mathlib.Core.Bool.{Bool, true, false}
use mathlib.Core.List.{List, [], ◌∷◌}
use native.Mathlib.Omega.{arith}
use text.Mathlib.Text.{◌==◌}
use eitoh_forge.Prelude.Tests.{if◌then◌else◌}
use eitoh_forge.Prelude.Sets.{has}

module _ {ℓ} {A : Type ℓ} (before : A → A → Bool) where
  -- Before the first element that is not smaller: `before x y` is `key(x) < key(y)`.
  unfoldable pub insert_stable : A → List A → List A
  insert_stable a [] = a ∷ []
  insert_stable a (b ∷ l) =
      let rest = insert_stable a l in if before b a then b ∷ rest else a ∷ b ∷ l

  -- list.sort
  unfoldable pub sort_stable : List A → List A
  unfolding insert_stable
  sort_stable [] = []
  sort_stable (a ∷ l) = insert_stable a (sort_stable l)

abbrev pub str_lt : String → String → Bool
str_lt a b = elim (compare a b) [ Ordering.lt ↦ true | _ ↦ false ]

-- sorted(s)
unfoldable pub sorted : List String → List String
unfolding sort_stable
sorted s = sort_stable str_lt s

has-insert_stable :
    (before : String → String → Bool) (x a : String) (l : List String)
    → has x (insert_stable before a l) ≡ (if a == x then true else has x l)
unfolding insert_stable has
has-insert_stable before x a [] = refl
has-insert_stable before x a (b ∷ l) = ground (arith, has-insert_stable before x a l)

has-sort_stable :
    (before : String → String → Bool) (x : String) (l : List String)
    → has x (sort_stable before l) ≡ has x l
unfolding sort_stable has
has-sort_stable before x [] = refl
has-sort_stable before x (a ∷ l) =
    ground (arith, has-insert_stable before x a (sort_stable before l), has-sort_stable before x l)

pub has-sorted : (x : String) (s : List String) → has x (sorted s) ≡ has x s
unfolding sorted
has-sorted x s = has-sort_stable str_lt x s
