-- ===== src/Reputation/Double.antt =====
-- What the tracker does with a `float64`. The arithmetic of the hardware is not under the repository:
-- it is a parameter.
use babylontower.Prelude.{ℕ, ◌≡◌, Bool, true, false}

-- `lit n k` is the constant n / 10^k, `of_nat` the conversion of a `uint64`, `to_float32` the rounding
-- to single precision, and `hours d` the number `uint64(time.Duration(d).Hours())`.
pub record Double (W : Type 0) : Type 0 where
  pub lit : ℕ → ℕ → W
  pub of_nat : ℕ → W
  pub neg : W → W
  pub add : W → W → W
  pub sub : W → W → W
  pub mul : W → W → W
  pub div : W → W → W
  pub lt : W → W → Bool
  pub le : W → W → Bool
  pub to_float32 : W → W
  pub hours : ℕ → ℕ

-- What IEEE 754 says of `<`: a value that is not `<=` itself is not a number, and no comparison holds
-- of it.
pub record IsOrdered {W : Type 0} (d : Double W) : Type 0 where
  pub lt_asym : (x y : W) → d.lt x y ≡ true → d.lt y x ≡ false
  pub not_lt_trans :
      (x y z : W) → d.le y y ≡ true → d.lt x y ≡ false → d.lt y z ≡ false → d.lt x z ≡ false
  pub zero_not_lt : d.lt (d.lit 0 0) (d.lit 0 0) ≡ false
  pub one_not_lt : d.lt (d.lit 1 0) (d.lit 1 0) ≡ false
  pub one_not_lt_zero : d.lt (d.lit 1 0) (d.lit 0 0) ≡ false
