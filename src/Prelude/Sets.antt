-- ===== src/Prelude/Sets.antt =====
-- Python's `set` of strings as a list, and a `dict` of such sets. The order of the elements stands
-- for the order in which Python happens to iterate.
use Prim.Native.String.{String}
use mathlib.Core.Path.{◌≡◌, refl}
use mathlib.Core.Bool.{Bool, true, false}
use mathlib.Core.List.{List, [], ◌∷◌, ◌++◌}
use mathlib.Core.Option.{none, some}
use native.Mathlib.Omega.{arith}
use text.Mathlib.Text.{◌==◌}
use text.Mathlib.TextEquality.{eq_iff}
use eitoh_forge.Prelude.Tests.{if◌then◌else◌, if_intro}
use eitoh_forge.Prelude.Lists.{is_empty}
use eitoh_forge.Prelude.Dict.{Dict, get, put, remove, get-put, get-remove}

-- x in s
unfoldable pub has : String → List String → Bool
has x [] = false
has x (y ∷ s) = if y == x then true else has x s

-- s.add(x)
unfoldable pub add : List String → String → List String
unfolding has
add s x = if has x s then s else s ++ x ∷ []

-- s.discard(x)
unfoldable pub without : String → List String → List String
without x [] = []
without x (y ∷ s) = let rest = without x s in if y == x then rest else y ∷ rest

abbrev pub Sets : Type 0
Sets = Dict (List String)

-- d.get(k, set())
unfoldable pub members : Sets → String → List String
members d k = elim (get d k) [ none ↦ [] | some s ↦ s ]

-- d.setdefault(k, set()).add(x)
unfoldable pub add_member : Sets → String → String → Sets
unfolding add members
add_member d k x = put d k (add (members d k) x)

-- d[k].discard(x), and the key is popped with its last member
unfoldable pub discard_member : Sets → String → String → Sets
unfolding without members
discard_member d k x =
    let rest = without x (members d k) in if is_empty rest then remove d k else put d k rest

has-append :
    (x y : String) (s : List String) → has x (s ++ y ∷ []) ≡ (if has x s then true else y == x)
unfolding has
has-append x y [] = ground arith
has-append x y (z ∷ s) = ground (arith, has-append x y s)

pub has-add :
    (x y : String) (s : List String) → has x (add s y) ≡ (if has x s then true else y == x)
unfolding add
has-add x y s = ground (arith, has-append x y s, eq_iff y x)

pub has-without :
    (x y : String) (s : List String) → has x (without y s) ≡ (if y == x then false else has x s)
unfolding has without
has-without x y [] = ground arith
has-without x y (z ∷ s) = ground (arith, has-without x y s, eq_iff y x, eq_iff z y, eq_iff z x)

members-put :
    (d : Sets) (k j : String) (s : List String)
    → members (put d k s) j ≡ (if k == j then s else members d j)
unfolding members
members-put d k j s = ground (arith, get-put d k j s)

members-remove :
    (d : Sets) (k j : String) → members (remove d k) j ≡ (if k == j then [] else members d j)
unfolding members
members-remove d k j = ground (arith, get-remove d k j)

pub members-discard_member :
    (d : Sets) (k j x : String)
    → members (discard_member d k x) j ≡ (if k == j then without x (members d k) else members d j)
unfolding discard_member
members-discard_member d k j x =
    ground (arith, members-put d k j (without x (members d k)), members-remove d k j)

pub has-add_member :
    (d : Sets) (k j x y : String)
    → has x (members (add_member d k y) j)
      ≡ (if k == j then (if has x (members d j) then true else y == x) else has x (members d j))
unfolding add_member
has-add_member d k j x y =
    ground (arith, members-put d k j (add (members d k) y), has-add x y (members d k), eq_iff k j)

pub has-discard_member :
    (d : Sets) (k j x y : String)
    → has x (members (discard_member d k y) j)
      ≡ (if k == j then (if y == x then false else has x (members d j)) else has x (members d j))
has-discard_member d k j x y =
    ground (arith, members-discard_member d k j y, has-without x y (members d k), eq_iff k j)

pub has-remove :
    (d : Sets) (k j x : String)
    → has x (members (remove d k) j) ≡ (if k == j then false else has x (members d j))
unfolding has
has-remove d k j x = ground (arith, members-remove d k j)

-- No element stands twice.
abbrev pub Distinct : List String → Type 0
Distinct [] = Unit {0}
Distinct (x ∷ s) = (has x s ≡ false) × Distinct s

Distinct-append :
    (s : List String) (x : String) → Distinct s → has x s ≡ false → Distinct (s ++ x ∷ [])
unfolding has
Distinct-append [] x d h = (refl, tt)
Distinct-append (y ∷ s) x (n, d) h = (
  ground (arith, has-append y x s, eq_iff x y, eq_iff y x, n, h),
  Distinct-append s x d (ground (arith, h)),
)

pub Distinct-add : (s : List String) (x : String) → Distinct s → Distinct (add s x)
unfolding add
Distinct-add s x d = if_intro Distinct (has x s) _ _ (λ e. d) (λ e. Distinct-append s x d e)

pub Distinct-without : (x : String) (s : List String) → Distinct s → Distinct (without x s)
unfolding without
Distinct-without x [] d = tt
Distinct-without x (y ∷ s) (n, d) =
    if_intro Distinct (y == x) _ _ (λ e. Distinct-without x s d)
      (λ e. (ground (arith, has-without y x s, n), Distinct-without x s d))

pub members-add_member :
    (d : Sets) (k j x : String)
    → members (add_member d k x) j ≡ (if k == j then add (members d k) x else members d j)
unfolding add_member
members-add_member d k j x = members-put d k j (add (members d k) x)
