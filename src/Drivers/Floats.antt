-- ===== src/Drivers/Floats.antt =====
-- The `double` of C: a type and its operations, of which nothing is known here.
use esp_components.Base.{Bool}
use esp_components.Base.Int.{ℤ}

pub record Floats : Type 1 where
  pub R : Type 0
  pub of_int : ℤ → R
  pub add : R → R → R
  pub sub : R → R → R
  pub mul : R → R → R
  pub div : R → R → R
  pub fabs : R → R
  pub sqrt : R → R
  pub hypot : R → R → R
  pub lt : R → R → Bool
  pub le : R → R → Bool
  pub eq : R → R → Bool
  pub is_finite : R → Bool
