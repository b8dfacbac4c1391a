-- ===== src/Bmp180/Tests.antt =====
-- The example of the sensor's data sheet, and the theorems at concrete inputs.
use rp_ecosystem.Base.{ℕ, ◌+◌, ◌*◌, ◌%◌, ◌^◌, true, false, [], some, ◌≡◌, refl, arith}
use rp_ecosystem.Base.Int.{pos, negsuc, signed, shr_ℤ, div_ℤ, to_word, ◌+ℤ◌, ◌-ℤ◌, ◌*ℤ◌}
use rp_ecosystem.Bmp180.Sensor.{Bus, Eprom}
use rp_ecosystem.Bmp180.Compensation.{temperature_of, pressure_of}
use rp_ecosystem.Base.Text.{codes}
use rp_ecosystem.Bmp180.Lifecycle.{Answers, Store, bmp180_init}
use rp_ecosystem.Bmp180.Resources.{Outcome, bmp180_init-Outcome}
use rp_ecosystem.Bmp180.Bytes.{Holds}
use rp_ecosystem.Bmp180.Range.{AllLong, last_of, temperature_values, temperature_values-IsLong}
use rp_ecosystem.Bmp180.Compensation.{bmp180_temperature}
use rp_ecosystem.Bmp180.Sensor.{bmp180_read_eprom, bmp180_read_raw_temperature, swap_bytes}
use rp_ecosystem.Bmp180.Driver.{Prints, pt_main, pt_main-Prints}
use rp_ecosystem.Bmp180.App.{Ends, main, main-Ends}

abbrev data_sheet : Eprom
data_sheet = record {
  ac1 = pos 408;
  ac2 = negsuc 71;
  ac3 = negsuc 14382;
  ac4 = pos 32741;
  ac5 = pos 32757;
  ac6 = pos 23153;
  b1 = pos 6190;
  b2 = pos 4;
  mb = negsuc 32767;
  mc = negsuc 8710;
  md = pos 2868;
}

data_sheet_values :
    (temperature_of data_sheet (pos 27898) ≡ some (pos 150))
    × (pressure_of data_sheet 0 (pos 27898) (pos 23843) ≡ some (pos 69964))
unfolding temperature_of pressure_of shr_ℤ div_ℤ to_word signed ◌+ℤ◌ ◌-ℤ◌ ◌*ℤ◌
data_sheet_values = (refl, refl)

-- A sensor whose byte at a register is the number of the register.
abbrev byte_at : ℕ → ℕ
byte_at reg = reg % 2 ^ 8

abbrev bus : Bus
bus = record {
  read_word_data = λ done reg. byte_at (reg + 1) * 2 ^ 8 + byte_at reg;
  read_byte_data = λ done reg. byte_at reg;
}

bus-Holds : Holds bus [] byte_at
bus-Holds reg = (omega arith, refl)

-- A sensor whose address cannot be set: the file that was opened stays open.
abbrev refused : Answers
refused = record { object = true; string = true; file = some 5; slave = false; eprom = data_sheet }

abbrev empty_store : Store
empty_store = record { next = 0; live = []; files = []; overrun = 0 }

bmp180_init-Outcome_example :
    let r = bmp180_init 0x77 (codes "/dev/i2c-0") refused empty_store in
    Outcome refused empty_store r.0 r.1 × (r.1.overrun ≡ 1)
bmp180_init-Outcome_example = bmp180_init-Outcome 0x77 (codes "/dev/i2c-0") refused empty_store

temperature_values-IsLong_example :
    let e = bmp180_read_eprom bus [] in
    AllLong (temperature_values e (pos (bmp180_read_raw_temperature bus []).0))
    × (last_of (pos 0) (temperature_values e (pos (bmp180_read_raw_temperature bus []).0))
        ≡ pos 1164)
unfolding bmp180_read_eprom bmp180_read_raw_temperature bmp180_temperature swap_bytes shr_ℤ div_ℤ
    ◌+ℤ◌ ◌-ℤ◌ ◌*ℤ◌
temperature_values-IsLong_example =
    temperature_values-IsLong bus [] [] (pos 1164) (omega arith, omega arith) refl

main-Ends_example :
    Ends refused
      (record { next = 0; live = []; files = []; overrun = 0 })
      (main bus refused (record { next = 0; live = []; files = []; overrun = 0 }))
main-Ends_example = main-Ends bus refused (record { next = 0; live = []; files = []; overrun = 0 })

-- A sensor that answers.
abbrev present : Answers
present = record refused { object = true; string = true; file = some 3; slave = true }

pt_main-Prints_example : Prints present empty_store (pt_main bus present empty_store)
pt_main-Prints_example = pt_main-Prints bus present empty_store
