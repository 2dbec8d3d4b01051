-- ===== src/Prelude/Int.antt =====
-- The integers that the code stores in an `int32` enum: `negsuc n` is -(n + 1).
use Prim.Native.Nat.{ℕ, ◌-◌}
use babylontower.Prelude.Tests.{if◌then◌else◌, ltb}
use native.Mathlib.Decide.{ℕ_discrete}

pub data ℤ : Type 0 where
  pos : ℕ → ℤ
  negsuc : ℕ → ℤ

unfoldable pub ℤ_discrete : Discrete ℤ
unfolding ℕ_discrete
ℤ_discrete = hlevel ℕ_discrete

-- The difference of two numbers.
abbrev pub difference : ℕ → ℕ → ℤ
difference a b = if ltb a b then negsuc (b - a - 1) else pos (a - b)
