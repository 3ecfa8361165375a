-- ===== src/Prelude/Int.antt =====
-- Python's integers as `int(num_s)` and `-1 * int(num_s)` make them.
use Prim.Native.Nat.{ℕ, zero, suc, ◌+◌, ◌-◌}
use mathlib.Core.Bool.{Bool, true, false}
use eitoh_forge.Prelude.Tests.{ltb, leb, ◌==◌, if◌then◌else◌}

-- `negsuc n` is -(n + 1).
pub data ℤ : Type 0 where
  pos : ℕ → ℤ
  negsuc : ℕ → ℤ

-- sign * n
abbrev pub signed : Bool → ℕ → ℤ
signed false n = pos n
signed true zero = pos zero
signed true (suc n) = negsuc n

abbrev pub eqℤ : ℤ → ℤ → Bool
eqℤ (pos a) (pos b) = a == b
eqℤ (negsuc a) (negsuc b) = a == b
eqℤ _ _ = false

abbrev pub ltℤ : ℤ → ℤ → Bool
ltℤ (pos a) (pos b) = ltb a b
ltℤ (negsuc a) (negsuc b) = ltb b a
ltℤ (negsuc a) (pos b) = true
ltℤ (pos a) (negsuc b) = false

-- abs(n - z)
abbrev pub distance : ℕ → ℤ → ℕ
distance n (pos m) = if leb m n then n - m else m - n
distance n (negsuc m) = n + m + 1
