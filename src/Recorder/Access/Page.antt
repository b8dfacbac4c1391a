-- ===== src/Recorder/Access/Page.antt =====
-- The access to the devices in projects/adc_recorder/src/zynq_io.c,
-- but for `init_system` and the `_init` functions that its program calls.
use rp_ecosystem.Base.{ℕ, ◌*◌, ◌/◌, ◌%◌, ◌^◌, bit_and, bit_or, ◌==◌, if◌then◌else◌}
use rp_ecosystem.Base.Int.{ℤ, signed, shr_ℤ}
use rp_ecosystem.Zynq.Open.{Host, Mapping, Outcome, map_device, size_and_map}
use rp_ecosystem.Zynq.Registers.{
  Device, dev_read, dev_write, cfg_reset_gral_offset, cfg_trlvl_1_offset, cfg_trlvl_2_offset,
  cfg_hv1_offset, cfg_hv2_offset, cfg_tr_scal_a_offset, cfg_tr_scal_b_offset,
  xil_axi_intc_ier_offset, xil_axi_intc_mer_offset, xil_axi_intc_iar_offset,
  xil_axi_intc_mer_me_mask, xil_axi_intc_mer_hie_mask,
}
use rp_ecosystem.Zynq.Device.{Board, Status, minus_one}
use rp_ecosystem.Zynq.System.{not32}
use rp_ecosystem.Recorder.Open.{open_then}

-- What it prints is left out.
unfoldable pub recorder_rd_reg_value : Board → ℕ → ℕ → ℕ
recorder_rd_reg_value b n_dev reg_off =
    if n_dev == 0
    then dev_read b.intc reg_off
    else if n_dev == 1
    then dev_read b.cfg reg_off
    else if n_dev == 2
    then dev_read b.sts reg_off
    else if n_dev == 3
    then dev_read b.xadc reg_off
    else minus_one

unfoldable pub recorder_wr_reg_value : Board → ℕ → ℕ → ℕ → Board × ℕ
recorder_wr_reg_value b n_dev reg_off reg_val =
    if n_dev == 0
    then (record b { intc = dev_write b.intc reg_off reg_val }, 0)
    else if n_dev == 1
    then (record b { cfg = dev_write b.cfg reg_off reg_val }, 0)
    else if n_dev == 2
    then (record b { sts = dev_write b.sts reg_off reg_val }, 0)
    else if n_dev == 3
    then (record b { xadc = dev_write b.xadc reg_off reg_val }, 0)
    else (b, minus_one)

-- The high voltages are the words of their registers, before the calibration in floats.
unfoldable pub recorder_rd_cfg_status : Board → Status
recorder_rd_cfg_status b = record {
  trigger_1 = dev_read b.cfg cfg_trlvl_1_offset;
  trigger_2 = dev_read b.cfg cfg_trlvl_2_offset;
  hv_1 = dev_read b.cfg cfg_hv1_offset;
  hv_2 = dev_read b.cfg cfg_hv2_offset;
  scaler_1 = dev_read b.cfg cfg_tr_scal_a_offset;
  scaler_2 = dev_read b.cfg cfg_tr_scal_b_offset;
  no_gps = bit_and (dev_read b.cfg cfg_reset_gral_offset / 2 ^ 4) 0x1 == 1;
  slave = bit_and (dev_read b.cfg cfg_reset_gral_offset / 2 ^ 5) 0x1 == 0;
}

unfoldable pub recorder_intc_init : Host → Mapping → Outcome Mapping
unfolding open_then size_and_map
recorder_intc_init h m = open_then h m (size_and_map h)

unfoldable pub recorder_xadc_init : Host → Mapping → Outcome Mapping
unfolding open_then size_and_map
recorder_xadc_init h m = open_then h m (size_and_map h)

unfoldable pub recorder_sts_init : Host → Mapping → Outcome Mapping
unfolding open_then size_and_map
recorder_sts_init h m = open_then h m (size_and_map h)

unfoldable pub recorder_mem_init : Host → Mapping → Outcome Mapping
unfolding open_then map_device
recorder_mem_init h m =
    open_then h m (λ m'. map_device h (record m' { dev_size = 2048 * h.page_size % 2 ^ 32 }))

-- The integer that `get_voltage` multiplies by its constant.
unfoldable pub recorder_adc_counts : Board → ℕ → ℤ
recorder_adc_counts b offset = shr_ℤ (signed 16 (dev_read b.xadc offset % 2 ^ 16)) 4

-- `dac_of` is the calibration in floats, from millivolts to the word of the DAC.
unfoldable pub recorder_set_voltage : (ℤ → ℕ) → Board → ℕ → ℤ → Board
recorder_set_voltage dac_of b offset value = record b {
  cfg = dev_write b.cfg offset (dac_of value);
}

unfoldable pub recorder_enable_interrupt : Device → Device
recorder_enable_interrupt intc =
    let i = dev_write intc xil_axi_intc_ier_offset 1 in
    dev_write i xil_axi_intc_mer_offset (bit_or xil_axi_intc_mer_me_mask xil_axi_intc_mer_hie_mask)

unfoldable pub recorder_disable_interrupt : Device → Device
recorder_disable_interrupt intc =
    let i = dev_write intc xil_axi_intc_ier_offset 0 in
    let value = dev_read i xil_axi_intc_mer_offset in
    let i = dev_write i xil_axi_intc_mer_offset (bit_or value (not32 1)) in
    dev_write i xil_axi_intc_iar_offset 1
