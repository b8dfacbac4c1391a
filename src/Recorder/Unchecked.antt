-- ===== src/Recorder/Unchecked.antt =====
-- What the recorders do when a device does not open.
use rp_ecosystem.Base.{
  ℕ, ◌*◌, ◌%◌, ◌^◌, ◌<◌, false, Bool, is_some, not, ◌&&◌, ltb, Option, none, some, if◌then◌else◌,
  ◌≡◌, refl, arith,
}
use rp_ecosystem.Base.Bits.{bit}
use rp_ecosystem.Base.Int.{pos, ltb_ℤ}
use rp_ecosystem.Zynq.Open.{Host, size_and_map, map_device}
use rp_ecosystem.Zynq.Registers.{Device}
use rp_ecosystem.Recorder.Memory.{Ram, uio_lines, recorder_lines, old_lines, counter_lines}
use rp_ecosystem.Recorder.Setup.{uio_setup, recorder_setup, counter_setup, counter_stop, old_setup}
use rp_ecosystem.Recorder.Reset.{uio_setup-reset}
use rp_ecosystem.Recorder.Open.{
  open_then, ask_buffer, uio_cfg_init, uio_cma_init, recorder_cfg_init, recorder_cma_init,
  counter_cfg_init, counter_sts_init, counter_cma_init, old_mem_init, old_cfg_init,
}
use rp_ecosystem.Recorder.Start.{
  faulted, finished, after, through, printing, both, uio_main, recorder_main, counter_main,
  old_main,
}

-- The address that the writer is given: the driver's, or what `dev_size` holds without it.
abbrev pub given : ℕ → Host → ℕ
given size ha =
    if ltb_ℤ ha.opened (pos 1)
    then size
    else if ltb_ℤ ha.ioctl_result (pos 0)
    then 1024 * ha.page_size % 2 ^ 32
    else ha.ioctl_size

-- The driver gave a buffer and it was mapped.
abbrev pub has_buffer : Host → Bool
has_buffer ha =
    is_some ha.mapped && (not (ltb_ℤ ha.opened (pos 1)) && not (ltb_ℤ ha.ioctl_result (pos 0)))

-- With its configuration mapped and no buffer, adc_recorder_uio and adc_recorder fault when they
-- print, and leave the writer enabled (bits 0 to 2 of the reset register set) with an address that
-- the driver did not give: the size of the mapped registers if its file did not open, the size asked
-- for if it refused. With a buffer they end with the same registers at the driver's address, and
-- with the lines of their buffer.
pub mains-given :
    (hc ha : Host) (cfg : Device) (ram : Ram) (size p k : ℕ)
    → ltb_ℤ hc.opened (pos 1) ≡ false
    → hc.map_size ≡ some size
    → hc.mapped ≡ some p
    → k < 32
    → let left = uio_setup (given size ha) cfg in
      let left' = recorder_setup (given (hc.page_size % 2 ^ 32) ha) cfg in
      (uio_main hc ha cfg ram
        ≡ (if has_buffer ha then finished left (uio_lines ram 0 (1024 * 1024)) else faulted left))
      × (recorder_main hc ha cfg ram ≡ (
          if has_buffer ha
          then finished left' (recorder_lines ram 0 (1024 * 1024))
          else faulted left'))
      × (left 4 ≡ given size ha)
      × (left' 4 ≡ given (hc.page_size % 2 ^ 32) ha)
      × (bit (left 0) k ≡ (if ltb k 3 then 1 else bit (cfg 0) k))
      × (bit (left' 0) k ≡ (if ltb k 3 then 1 else bit (cfg 0) k))
unfolding uio_main recorder_main uio_cfg_init uio_cma_init recorder_cfg_init recorder_cma_init
    open_then ask_buffer size_and_map map_device after through printing uio_setup recorder_setup
mains-given hc ha cfg ram size p k o s m h = (
  ground arith,
  ground arith,
  refl,
  refl,
  uio_setup-reset (given size ha) cfg k h,
  uio_setup-reset (given (hc.page_size % 2 ^ 32) ha) cfg k h,
)

-- With a configuration that is not mapped, and whose size can be read, both fault before they write a
-- register.
mains-unmapped :
    (hc ha : Host) (cfg : Device) (ram : Ram) (size : ℕ)
    → hc.mapped ≡ none
    → hc.map_size ≡ some size
    → (uio_main hc ha cfg ram ≡ faulted cfg) × (recorder_main hc ha cfg ram ≡ faulted cfg)
unfolding uio_main recorder_main uio_cfg_init uio_cma_init recorder_cfg_init recorder_cma_init
    open_then ask_buffer size_and_map map_device after through
mains-unmapped hc ha cfg ram size m s = (ground arith, ground arith)

-- counter_test with its configuration mapped and the size of its status device readable: without
-- either pointer to its buffer it faults, the writer set up, and otherwise it stops the counters
-- behind its lines.
counter_main-given :
    (hc hs ha : Host) (again : Option ℕ) (cfg : Device) (ram : Ram) (size size' p : ℕ)
    → ltb_ℤ hc.opened (pos 1) ≡ false
    → hc.map_size ≡ some size
    → hc.mapped ≡ some p
    → hs.map_size ≡ some size'
    → let left = counter_setup (given (if ltb_ℤ hs.opened (pos 1) then size else size') ha) cfg in
      counter_main hc hs ha again cfg ram ≡ (
        if has_buffer ha && is_some again
        then finished (counter_stop left) (counter_lines ram 0 (2 * 65536))
        else faulted left)
unfolding counter_main counter_cfg_init counter_sts_init counter_cma_init open_then ask_buffer
    size_and_map map_device after through printing both
counter_main-given hc hs ha again cfg ram size size' p o s m t = ground arith

-- adc_recorder_old with its configuration mapped: without its buffer it faults at its first sample,
-- the writer set up, and otherwise it prints its lines.
old_main-given :
    (hm hc : Host) (cfg : Device) (ram : Ram) (size p : ℕ)
    → ltb_ℤ hc.opened (pos 1) ≡ false
    → hc.map_size ≡ some size
    → hc.mapped ≡ some p
    → old_main hm hc cfg ram ≡ (
        if not (ltb_ℤ hm.opened (pos 1)) && is_some hm.mapped
        then finished (old_setup cfg) (old_lines ram 0 (1024 * 1024))
        else faulted (old_setup cfg))
unfolding old_main old_mem_init old_cfg_init open_then size_and_map map_device after through
    printing
old_main-given hm hc cfg ram size p o s m = ground arith
