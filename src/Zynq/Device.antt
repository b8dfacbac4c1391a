-- ===== src/Zynq/Device.antt =====
-- `rd_reg_value`, `wr_reg_value`, `rd_cfg_status`, `get_voltage` and `set_voltage` of zynq_io.c.
use rp_ecosystem.Base.{
  ℕ, ◌-◌, ◌/◌, ◌%◌, ◌^◌, bit_and, Bool, ◌&&◌, ltb, ◌==◌, if◌then◌else◌, ◌≡◌, arith,
}
use rp_ecosystem.Base.Int.{ℤ, pos, negsuc, signed, shr_ℤ, ◌≤ℤ◌}
use rp_ecosystem.Zynq.Registers.{
  Device, dev_read, dev_write, cfg_reset_gral_offset, cfg_trlvl_1_offset, cfg_trlvl_2_offset,
  cfg_hv1_offset, cfg_hv2_offset, cfg_tr_scal_a_offset, cfg_tr_scal_b_offset,
}

-- The four devices that have a number.
pub record Board : Type 0 where
  pub intc : Device
  pub cfg : Device
  pub sts : Device
  pub xadc : Device

-- The result of `return -1`, as the bit pattern of an `int32_t`.
abbrev pub minus_one : ℕ
minus_one = 2 ^ 32 - 1

unfoldable pub rd_reg_value : Board → ℕ → ℕ → ℕ
rd_reg_value b n_dev reg_off =
    if n_dev == 0
    then dev_read b.intc reg_off
    else if n_dev == 1
    then dev_read b.cfg reg_off
    else if n_dev == 2
    then dev_read b.sts reg_off
    else if n_dev == 3
    then dev_read b.xadc reg_off
    else minus_one

unfoldable pub wr_reg_value : Board → ℕ → ℕ → ℕ → Board × ℕ
wr_reg_value b n_dev reg_off reg_val =
    if n_dev == 0
    then (record b { intc = dev_write b.intc reg_off reg_val }, 0)
    else if n_dev == 1
    then (record b { cfg = dev_write b.cfg reg_off reg_val }, 0)
    else if n_dev == 2
    then (record b { sts = dev_write b.sts reg_off reg_val }, 0)
    else if n_dev == 3
    then (record b { xadc = dev_write b.xadc reg_off reg_val }, 0)
    else (b, minus_one)

-- What `rd_cfg_status` prints. The high voltages are printed through a linear calibration in
-- floats; here they are the words of their registers.
pub record Status : Type 0 where
  pub trigger_1 : ℕ
  pub trigger_2 : ℕ
  pub hv_1 : ℕ
  pub hv_2 : ℕ
  pub scaler_1 : ℕ
  pub scaler_2 : ℕ
  pub no_gps : Bool
  pub slave : Bool

unfoldable pub rd_cfg_status : Board → Status
rd_cfg_status b = record {
  trigger_1 = dev_read b.cfg cfg_trlvl_1_offset;
  trigger_2 = dev_read b.cfg cfg_trlvl_2_offset;
  hv_1 = dev_read b.cfg cfg_hv1_offset;
  hv_2 = dev_read b.cfg cfg_hv2_offset;
  scaler_1 = dev_read b.cfg cfg_tr_scal_a_offset;
  scaler_2 = dev_read b.cfg cfg_tr_scal_b_offset;
  no_gps = bit_and (dev_read b.cfg cfg_reset_gral_offset / 2 ^ 4) 0x1 == 1;
  slave = bit_and (dev_read b.cfg cfg_reset_gral_offset / 2 ^ 5) 0x1 == 0;
}

-- The integer that `get_voltage` multiplies by its constant: `(int16_t)` of the word, `>> 4`.
unfoldable pub adc_counts : Board → ℕ → ℤ
adc_counts b offset = shr_ℤ (signed 16 (dev_read b.xadc offset % 2 ^ 16)) 4

-- `set_voltage`; `dac_of` is its calibration in floats, from millivolts to the word of the DAC.
unfoldable pub set_voltage : (ℤ → ℕ) → Board → ℕ → ℤ → Board
set_voltage dac_of b offset value = record b { cfg = dev_write b.cfg offset (dac_of value) }

-- A word that is written to one of the four devices is read back there, and no other word of the
-- board changes; a write to a device number above 3 is refused and changes nothing.
pub rd_reg_value-wr_reg_value :
    (b : Board) (n off val n' off' : ℕ)
    → let (b', status) = wr_reg_value b n off val in
      (status ≡ (if ltb n 4 then 0 else minus_one))
      × (rd_reg_value b' n' off'
          ≡ (if ltb n 4 && n' == n && off' == off then val else rd_reg_value b n' off'))
unfolding rd_reg_value wr_reg_value
rd_reg_value-wr_reg_value b n off val n' off' = ground arith

-- The counts of the converter are those of 12 bits with a sign.
pub adc_counts_bounds :
    (b : Board) (offset : ℕ)
    → (negsuc 2047 ≤ℤ adc_counts b offset) × (adc_counts b offset ≤ℤ pos 2047)
unfolding adc_counts shr_ℤ signed
adc_counts_bounds b offset = ground arith
