-- ===== src/Recorder/Copies.antt =====
-- The recorders' copies of zynq_io.c against the one of projects/lago_v1_3.
use rp_ecosystem.Base.{ℕ, ◌%◌, ◌^◌, ◌≡◌, refl, some}
use rp_ecosystem.Base.Int.{ℤ}
use rp_ecosystem.Zynq.Registers.{Device}
use rp_ecosystem.Zynq.Device.{
  Board, rd_reg_value, wr_reg_value, rd_cfg_status, adc_counts, set_voltage,
}
use rp_ecosystem.Zynq.Open.{Host, Mapping, map_device, size_and_map, uio_init, mem_init, cma_init}
use rp_ecosystem.Zynq.System.{enable_interrupt, disable_interrupt}
use rp_ecosystem.Recorder.Open.{
  open_then, ask_buffer, uio_cfg_init, uio_cma_init, recorder_cfg_init, recorder_cma_init,
  counter_cfg_init, counter_sts_init, old_cfg_init,
}
use rp_ecosystem.Recorder.Access.{
  uio_rd_reg_value, uio_wr_reg_value, uio_rd_cfg_status, uio_adc_counts, uio_set_voltage,
  uio_enable_interrupt, uio_disable_interrupt, recorder_rd_reg_value, recorder_wr_reg_value,
  recorder_rd_cfg_status, recorder_adc_counts, recorder_set_voltage, recorder_enable_interrupt,
  recorder_disable_interrupt, counter_rd_reg_value, counter_wr_reg_value, counter_rd_cfg_status,
  counter_adc_counts, counter_set_voltage, counter_enable_interrupt, counter_disable_interrupt,
  old_rd_reg_value, old_wr_reg_value, uio_intc_init, uio_xadc_init, uio_sts_init, uio_mem_init,
  recorder_intc_init, recorder_xadc_init, recorder_sts_init, recorder_mem_init, counter_intc_init,
  counter_xadc_init, counter_mem_init, old_intc_init, old_sts_init,
}

-- The four copies read and write a register of a device as lago's does.
registers-copies :
    (b : Board) (n off val : ℕ)
    → (uio_rd_reg_value b n off ≡ rd_reg_value b n off)
      × (recorder_rd_reg_value b n off ≡ rd_reg_value b n off)
      × (counter_rd_reg_value b n off ≡ rd_reg_value b n off)
      × (old_rd_reg_value b n off ≡ rd_reg_value b n off)
      × (uio_wr_reg_value b n off val ≡ wr_reg_value b n off val)
      × (recorder_wr_reg_value b n off val ≡ wr_reg_value b n off val)
      × (counter_wr_reg_value b n off val ≡ wr_reg_value b n off val)
      × (old_wr_reg_value b n off val ≡ wr_reg_value b n off val)
unfolding uio_rd_reg_value recorder_rd_reg_value counter_rd_reg_value old_rd_reg_value rd_reg_value
    uio_wr_reg_value recorder_wr_reg_value counter_wr_reg_value old_wr_reg_value wr_reg_value
registers-copies b n off val = (refl, refl, refl, refl, refl, refl, refl, refl)

-- Three of them do so with the status, the converter, the voltages and the interrupt controller.
devices-copies :
    (b : Board) (dac_of : ℤ → ℕ) (offset : ℕ) (mv : ℤ) (intc : Device)
    → (uio_rd_cfg_status b ≡ rd_cfg_status b)
      × (recorder_rd_cfg_status b ≡ rd_cfg_status b)
      × (counter_rd_cfg_status b ≡ rd_cfg_status b)
      × (uio_adc_counts b offset ≡ adc_counts b offset)
      × (recorder_adc_counts b offset ≡ adc_counts b offset)
      × (counter_adc_counts b offset ≡ adc_counts b offset)
      × (uio_set_voltage dac_of b offset mv ≡ set_voltage dac_of b offset mv)
      × (recorder_set_voltage dac_of b offset mv ≡ set_voltage dac_of b offset mv)
      × (counter_set_voltage dac_of b offset mv ≡ set_voltage dac_of b offset mv)
      × (uio_enable_interrupt intc ≡ enable_interrupt intc)
      × (recorder_enable_interrupt intc ≡ enable_interrupt intc)
      × (counter_enable_interrupt intc ≡ enable_interrupt intc)
      × (uio_disable_interrupt intc ≡ disable_interrupt intc)
      × (recorder_disable_interrupt intc ≡ disable_interrupt intc)
      × (counter_disable_interrupt intc ≡ disable_interrupt intc)
unfolding uio_rd_cfg_status recorder_rd_cfg_status counter_rd_cfg_status rd_cfg_status
    uio_adc_counts recorder_adc_counts counter_adc_counts adc_counts uio_set_voltage
    recorder_set_voltage counter_set_voltage set_voltage uio_enable_interrupt
    recorder_enable_interrupt counter_enable_interrupt enable_interrupt uio_disable_interrupt
    recorder_disable_interrupt counter_disable_interrupt disable_interrupt
devices-copies b dac_of offset mv intc =
    (refl, refl, refl, refl, refl, refl, refl, refl, refl, refl, refl, refl, refl, refl, refl)

-- The devices of UIO open in every copy as in lago, and so do the memory and the buffer but for two
-- differences: adc_recorder maps its configuration by a page without a size file, and
-- adc_recorder_old maps half the memory.
opening-copies :
    (h : Host) (m : Mapping)
    → (uio_cfg_init h m ≡ uio_init h m)
      × (uio_intc_init h m ≡ uio_init h m)
      × (uio_sts_init h m ≡ uio_init h m)
      × (uio_xadc_init h m ≡ uio_init h m)
      × (uio_mem_init h m ≡ mem_init h m)
      × (uio_cma_init h m ≡ cma_init h m)
      × (recorder_intc_init h m ≡ uio_init h m)
      × (recorder_sts_init h m ≡ uio_init h m)
      × (recorder_xadc_init h m ≡ uio_init h m)
      × (recorder_mem_init h m ≡ mem_init h m)
      × (recorder_cma_init h m ≡ cma_init h m)
      × (recorder_cfg_init h m ≡ uio_init (record h { map_size = some (h.page_size % 2 ^ 32) }) m)
      × (counter_cfg_init h m ≡ uio_init h m)
      × (counter_intc_init h m ≡ uio_init h m)
      × (counter_sts_init h m ≡ uio_init h m)
      × (counter_xadc_init h m ≡ uio_init h m)
      × (counter_mem_init h m ≡ mem_init h m)
      × (old_cfg_init h m ≡ uio_init h m)
      × (old_intc_init h m ≡ uio_init h m)
      × (old_sts_init h m ≡ uio_init h m)
unfolding uio_cfg_init uio_intc_init uio_sts_init uio_xadc_init uio_mem_init uio_cma_init
    recorder_intc_init recorder_sts_init recorder_xadc_init recorder_mem_init recorder_cma_init
    recorder_cfg_init counter_cfg_init counter_intc_init counter_sts_init counter_xadc_init
    counter_mem_init old_cfg_init old_intc_init old_sts_init uio_init mem_init cma_init open_then
    ask_buffer size_and_map map_device
opening-copies h m = (
  refl, refl, refl, refl, refl, refl, refl, refl, refl, refl, refl, refl, refl, refl, refl, refl,
  refl, refl, refl, refl,
)
