-- ===== src/Recorder/Access/Old.antt =====
-- The access to the devices in projects/adc_recorder_old/src/adc_recorder.c,
-- but for `init_system` and the `_init` functions that its program calls.
use rp_ecosystem.Base.{ℕ, ◌==◌, if◌then◌else◌}
use rp_ecosystem.Zynq.Open.{Host, Mapping, Outcome, size_and_map}
use rp_ecosystem.Zynq.Registers.{dev_read, dev_write}
use rp_ecosystem.Zynq.Device.{Board, minus_one}
use rp_ecosystem.Recorder.Open.{open_then}

-- What it prints is left out.
unfoldable pub old_rd_reg_value : Board → ℕ → ℕ → ℕ
old_rd_reg_value b n_dev reg_off =
    if n_dev == 0
    then dev_read b.intc reg_off
    else if n_dev == 1
    then dev_read b.cfg reg_off
    else if n_dev == 2
    then dev_read b.sts reg_off
    else if n_dev == 3
    then dev_read b.xadc reg_off
    else minus_one

unfoldable pub old_wr_reg_value : Board → ℕ → ℕ → ℕ → Board × ℕ
old_wr_reg_value b n_dev reg_off reg_val =
    if n_dev == 0
    then (record b { intc = dev_write b.intc reg_off reg_val }, 0)
    else if n_dev == 1
    then (record b { cfg = dev_write b.cfg reg_off reg_val }, 0)
    else if n_dev == 2
    then (record b { sts = dev_write b.sts reg_off reg_val }, 0)
    else if n_dev == 3
    then (record b { xadc = dev_write b.xadc reg_off reg_val }, 0)
    else (b, minus_one)

unfoldable pub old_intc_init : Host → Mapping → Outcome Mapping
unfolding open_then size_and_map
old_intc_init h m = open_then h m (size_and_map h)

unfoldable pub old_sts_init : Host → Mapping → Outcome Mapping
unfolding open_then size_and_map
old_sts_init h m = open_then h m (size_and_map h)
