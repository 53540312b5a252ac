-- ===== src/Prelude/Float.antt =====
-- Go's float64 and package math, as the program uses them: the type and its operations are a
-- parameter.
pub mod Laws
pub mod Fixed
use load_shedding.Prelude.{ℕ, Bool}
use load_shedding.Prelude.Int.{ℤ}

pub record Float64 : Type 1 where
  pub F : Type 0
  -- float64(n), and the truncations int(x) and uint64(x).
  pub of_int : ℤ → F
  pub to_int : F → ℤ
  pub to_uint : F → ℕ
  -- The constant n / d.
  pub ratio : ℤ → ℤ → F
  pub add : F → F → F
  pub minus : F → F → F
  pub mul : F → F → F
  pub div : F → F → F
  -- `x < y` and `x <= y`; both are false at NaN.
  pub lt : F → F → Bool
  pub le : F → F → Bool
  pub maximum : F → F → F
  pub minimum : F → F → F
  pub sqrt : F → F
  pub ceil : F → F
  pub log10 : F → F
