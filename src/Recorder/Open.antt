-- ===== src/Recorder/Open.antt =====
-- How the recorders that map their devices through zynq_io.c open them: the functions of
-- adc_recorder/src, adc_recorder_uio/uio_src, counter_test/uio_src and adc_recorder_old/src that
-- their programs call. The names of the files are left out.
use rp_ecosystem.Base.{ℕ, ◌*◌, ◌%◌, ◌^◌, Option, none, if◌then◌else◌}
use rp_ecosystem.Base.Int.{pos, negsuc, ltb_ℤ}
use rp_ecosystem.Zynq.Open.{Host, Mapping, Outcome, returned, map_device, size_and_map}

-- The globals of a device before its `_init` runs; `dev_size` is the one that all of them share.
abbrev pub unset : ℕ → Mapping
unset dev_size = record { fd = pos 0; ptr = none; dev_size = dev_size }

-- `open` and the test behind it.
unfoldable pub open_then : Host → Mapping → (Mapping → Outcome Mapping) → Outcome Mapping
open_then h m next =
    let m' = record m { fd = h.opened } in
    if ltb_ℤ h.opened (pos 1) then returned m' (negsuc 0) else next m'

-- The request to the driver, which replaces `dev_size` by the address of the buffer.
unfoldable pub ask_buffer : Host → (Mapping → Outcome Mapping) → Mapping → Outcome Mapping
ask_buffer h next m =
    let asked = record m { dev_size = 1024 * h.page_size % 2 ^ 32 } in
    if ltb_ℤ h.ioctl_result (pos 0)
    then returned asked (pos 1)
    else next (record asked { dev_size = h.ioctl_size })

-- adc_recorder_uio.
unfoldable pub uio_cfg_init : Host → Mapping → Outcome Mapping
unfolding open_then size_and_map
uio_cfg_init h m = open_then h m (size_and_map h)

unfoldable pub uio_cma_init : Host → Mapping → Outcome Mapping
unfolding open_then ask_buffer map_device
uio_cma_init h m = open_then h m (ask_buffer h (map_device h))

-- adc_recorder, whose configuration is mapped from /dev/mem by a page.
unfoldable pub recorder_cfg_init : Host → Mapping → Outcome Mapping
unfolding open_then map_device
recorder_cfg_init h m =
    open_then h m (λ m'. map_device h (record m' { dev_size = h.page_size % 2 ^ 32 }))

unfoldable pub recorder_cma_init : Host → Mapping → Outcome Mapping
unfolding open_then ask_buffer map_device
recorder_cma_init h m = open_then h m (ask_buffer h (map_device h))

-- counter_test.
unfoldable pub counter_cfg_init : Host → Mapping → Outcome Mapping
unfolding open_then size_and_map
counter_cfg_init h m = open_then h m (size_and_map h)

unfoldable pub counter_sts_init : Host → Mapping → Outcome Mapping
unfolding open_then size_and_map
counter_sts_init h m = open_then h m (size_and_map h)

-- The two pointers to its buffer, the first tested and the second not; `again` is what the second
-- `mmap` gives.
unfoldable pub counter_cma_init : Host → Option ℕ → Mapping → Outcome Mapping × Option ℕ
unfolding open_then ask_buffer map_device
counter_cma_init h again m = (
  open_then h m (ask_buffer h (map_device h)),
  if ltb_ℤ h.opened (pos 1) then none else if ltb_ℤ h.ioctl_result (pos 0) then none else again,
)

-- adc_recorder_old, whose buffer is mapped from /dev/mem at a fixed address.
unfoldable pub old_mem_init : Host → Mapping → Outcome Mapping
unfolding open_then map_device
old_mem_init h m =
    open_then h m (λ m'. map_device h (record m' { dev_size = 1024 * h.page_size % 2 ^ 32 }))

unfoldable pub old_cfg_init : Host → Mapping → Outcome Mapping
unfolding open_then size_and_map
old_cfg_init h m = open_then h m (size_and_map h)
