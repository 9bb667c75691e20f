-- ===== src/Float.antt =====
-- Python's `float` and the functions of `math` that the modelled code uses, as an interface. The
-- code decides by comparisons; no law of the arithmetic is assumed here.
pub mod Example
use carla.Prelude.{ℕ, Bool}
use carla.Prelude.Int.{ℤ}

pub record Float (F : Type 0) : Type 0 where
  pub of_ℕ : ℕ → F
  pub lt : F → F → Bool
  pub le : F → F → Bool
  pub eq : F → F → Bool
  pub is_finite : F → Bool
  pub add : F → F → F
  pub sub : F → F → F
  pub mul : F → F → F
  pub div : F → F → F
  pub neg : F → F
  pub abs : F → F
  pub sin : F → F
  pub cos : F → F
  pub radians : F → F
  -- An integer divided by an integer, `a / b`.
  pub ratio : ℤ → ℕ → F
  -- `x <= n` for a float and an integer, which Python compares exactly.
  pub le_ℤ : F → ℤ → Bool
