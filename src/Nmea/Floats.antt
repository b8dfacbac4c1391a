-- ===== src/Nmea/Floats.antt =====
-- The operations on `double` that the position is computed with: those of the C compiler and of its
-- library. Nothing is assumed of them.
use rp_ecosystem.Base.{Bytes}
use rp_ecosystem.Base.Int.{ℤ}

pub record Floats : Type 1 where
  pub Double : Type 0
  pub atof : Bytes → Double
  pub of_int : ℤ → Double
  pub to_int : Double → ℤ
  pub add : Double → Double → Double
  pub sub : Double → Double → Double
  pub mul : Double → Double → Double
  pub div : Double → Double → Double
  pub round : Double → Double
  pub whole : Double → Double
  pub fraction : Double → Double
