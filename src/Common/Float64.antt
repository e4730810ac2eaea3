-- ===== src/Common/Float64.antt =====
-- Go's float64, which the code takes from outside: a type with its operations, and the facts on
-- integers below 2^53 that IEEE 754 guarantees.
use Prim.Native.Nat.{ℕ, ◌*◌, ◌^◌, ◌<◌}
use mathlib.Core.Path.{◌≡◌}
use reposhift.Common.Int.{ℤ, pos}

pub record Floats : Type 1 where
  pub Float : Type 0
  -- float64(n)
  pub of_ℕ : ℕ → Float
  pub add : Float → Float → Float
  pub mul : Float → Float → Float
  -- math.Pow
  pub pow : Float → Float → Float
  -- the constant 0.25
  pub quarter : Float
  -- int64(x): what it gives out of range is the platform's choice
  pub trunc : Float → ℤ

-- Integers below 2^53 are exact, and so is a product that stays below.
pub record IsExact (f : Floats) : Type 0 where
  pub mul-of_ℕ : (a b : ℕ) → a * b < 2 ^ 53 → f.mul (f.of_ℕ a) (f.of_ℕ b) ≡ f.of_ℕ (a * b)
  pub trunc-of_ℕ : (a : ℕ) → a < 2 ^ 53 → f.trunc (f.of_ℕ a) ≡ pos a
