-- ===== src/Xadc/Report.antt =====
-- `main` of xadc_uio.c, with the readings as the integers that it prints or multiplies by its constants.
use rp_ecosystem.Base.{
  ℕ, ◌/◌, ◌%◌, ◌^◌, Option, none, some, true, ltb, if◌then◌else◌, ◌≡◌, ◌≢◌, arith,
}
use rp_ecosystem.Base.Int.{ℤ, pos, sub_ℕ, ltb_ℤ, shr_ℤ, signed}
use rp_ecosystem.Zynq.Registers.{
  Device, dev_read, xadc_ai0_offset, xadc_ai1_offset, xadc_ai2_offset, xadc_ai3_offset,
}
use rp_ecosystem.Xadc.{counts, vccint_ratio, vccint_ratio-zero}

abbrev pub xadc_temperature_offset : ℕ
xadc_temperature_offset = 0x200

abbrev pub xadc_vpvn_offset : ℕ
xadc_vpvn_offset = 0x20C

abbrev pub xadc_splyoff_offset : ℕ
xadc_splyoff_offset = 0x220

-- The lines of the report: the counts of the four pins, those of the temperature, the supply offset,
-- and the factor of VCCINT.
pub record Report : Type 0 where
  pub ai0 : ℤ
  pub ai1 : ℤ
  pub ai2 : ℤ
  pub ai3 : ℤ
  pub temperature : ℤ
  pub offset : ℤ
  pub vccint : ℤ

-- `value = (int16_t) dev_read(...)`, and `value = (uint16_t) dev_read(...)`, which is stored in an
-- `int16_t` too.
unfoldable pub value_of : ℕ → ℤ
value_of word = signed 16 (word % 2 ^ 16)

unfoldable pub report : Device → Report
unfolding value_of
report dev = record {
  ai0 = counts (dev_read dev xadc_ai0_offset);
  ai1 = counts (dev_read dev xadc_ai1_offset);
  ai2 = counts (dev_read dev xadc_ai2_offset);
  ai3 = counts (dev_read dev xadc_ai3_offset);
  temperature = shr_ℤ (value_of (dev_read dev xadc_temperature_offset)) 4;
  offset = value_of (dev_read dev xadc_splyoff_offset);
  vccint = vccint_ratio (dev_read dev xadc_vpvn_offset);
}

-- What the system answers: `open`, the size file, and `mmap`, with the device that it maps.
pub record Answers : Type 0 where
  pub opened : ℤ
  pub map_size : Option ℕ
  pub mapped : Option Device

-- How the program ends, with what is still open then.
pub data Exit : Type 0 where
  invalid_file : Exit
  no_size : Exit
  not_mapped : Exit
  reported : Report → Exit

unfoldable pub main_mapped : Option Device → Exit
unfolding report
main_mapped none = not_mapped
main_mapped (some dev) = reported (report dev)

unfoldable pub main : Answers → Exit
unfolding main_mapped
main a =
    if ltb_ℤ a.opened (pos 1)
    then invalid_file
    else (elim a.map_size [ none ↦ no_size | some _ ↦ main_mapped a.mapped ])

-- The 12 bits of a reading.
abbrev pub code_at : Device → ℕ → ℕ
code_at dev offset = dev_read dev offset % 2 ^ 16 / 2 ^ 4

-- A code of 12 bits as a number with a sign.
abbrev pub signed_code : ℕ → ℤ
signed_code c = if ltb c 2048 then pos c else sub_ℕ c 4096

value_code : (w : ℕ) → shr_ℤ (value_of w) 4 ≡ signed_code (w % 2 ^ 16 / 2 ^ 4)
unfolding value_of signed shr_ℤ
value_code w = ground arith

counts_code : (w : ℕ) → counts w ≡ signed_code (w % 2 ^ 16 / 2 ^ 4)
unfolding counts signed shr_ℤ
counts_code w = ground arith

-- If the file opens with a positive descriptor, its size is read and it is mapped, the program
-- reports. The pins are printed from their codes of 12 bits with a sign; so is the
-- temperature, whose code has none: a code c from 2048 on counts as c - 4096. The factor of VCCINT
-- is 0.
pub main-report :
    (a : Answers) (dev : Device)
    → ltb_ℤ (pos 0) a.opened ≡ true
    → a.map_size ≢ none
    → a.mapped ≡ some dev
    → (r : Report) × (main a ≡ reported r)
      × (r.ai0 ≡ signed_code (code_at dev xadc_ai0_offset))
      × (r.ai1 ≡ signed_code (code_at dev xadc_ai1_offset))
      × (r.ai2 ≡ signed_code (code_at dev xadc_ai2_offset))
      × (r.ai3 ≡ signed_code (code_at dev xadc_ai3_offset))
      × (r.temperature ≡ signed_code (code_at dev xadc_temperature_offset))
      × (r.vccint ≡ pos 0)
unfolding main
main-report a dev o s m = (
  report dev,
  ground arith,
  counts_code (dev_read dev xadc_ai0_offset),
  counts_code (dev_read dev xadc_ai1_offset),
  counts_code (dev_read dev xadc_ai2_offset),
  counts_code (dev_read dev xadc_ai3_offset),
  value_code (dev_read dev xadc_temperature_offset),
  vccint_ratio-zero (dev_read dev xadc_vpvn_offset),
)
