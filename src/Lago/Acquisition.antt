-- ===== src/Lago/Acquisition.antt =====
-- The globals of lago.c that `read_buffer` keeps, and the lines that it prints.
use rp_ecosystem.Base.{ℕ, Bool, List}
use rp_ecosystem.Base.Int.{ℤ}
use rp_ecosystem.Base.Calendar.{Tm}

-- A line of the data file. Values that the program computes in floats are given by the integers
-- that it computes them from; those of the pressure sensor and of the GPS are left out.
pub data Line : Type 0 where
  opened : Tm → Bool → Line
  header : ℕ → ℕ → ℕ → ℕ → ℕ → ℕ → Bool → Line
  sample : ℤ → ℤ → Line
  trigger : ℕ → ℕ → Line
  pulse_count : ℕ → Line
  frequency : ℕ → Line
  temperature : Line
  pressure : Line
  time : Tm → ℕ → ℕ → Line
  voltages : ℤ → ℤ → Line
  base_temperatures : ℕ → ℤ → ℤ → Line
  gps_position : Line
  rate_1 : ℕ → Line
  rate_2 : ℕ → Line
  unknown_word : ℕ → Line

-- `lines` is what was printed, the last line first; `file_time` counts as `Base.Calendar` says.
-- The counters in ℕ are kept as their words of 32 bits.
pub record Acq : Type 0 where
  pub lines : List Line
  pub f_first_time : Bool
  pub false_gps : Bool
  pub file_date : Tm
  pub file_time : ℕ
  pub mtd_seconds : ℕ
  pub mtd_bl0 : ℤ
  pub mtd_bl1 : ℤ
  pub mtd_bl2_0 : ℤ
  pub mtd_bl2_1 : ℤ
  pub mtd_i_bin : ℕ
  pub mtd_cbl : ℕ
  pub mtd_dp : ℤ
  pub mtd_cdp : ℤ
  pub mtd_pulse_cnt : ℕ
  pub mtd_pulse_pnt : ℕ
  pub r : List ℕ
  pub r1 : ℕ
  pub r2 : ℕ
  pub hack : ℕ
  pub gps_lat : ℤ
  pub gps_lon : ℤ
  pub gps_alt : ℤ
  pub current : ℤ
