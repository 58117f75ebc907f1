-- ===== src/Floats.antt =====
-- `float64` and the `math` functions of Go, as a parameter: no law of it is used unless a theorem
-- names it.
use paysuper_billing_server.Base.{Bool}

pub record Floats : Type 1 where
  pub F : Type 0
  pub zero_f : F
  pub hundred : F
  pub add_f : F → F → F
  pub sub_f : F → F → F
  pub mul_f : F → F → F
  pub div_f : F → F → F
  pub less_f : F → F → Bool
  pub le_f : F → F → Bool
  pub eq_f : F → F → Bool
  -- `math.Round`
  pub round_f : F → F
