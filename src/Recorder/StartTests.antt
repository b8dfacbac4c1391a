-- ===== src/Recorder/StartTests.antt =====
-- The start of the recorders at concrete answers.
use rp_ecosystem.Base.{some, ◌≡◌, refl, arith}
use rp_ecosystem.Base.Bits.{bit}
use rp_ecosystem.Base.Int.{pos, negsuc}
use rp_ecosystem.Zynq.Open.{Host}
use rp_ecosystem.Zynq.Registers.{Device}
use rp_ecosystem.Recorder.Setup.{uio_setup, recorder_setup}
use rp_ecosystem.Recorder.Start.{faulted, uio_main, recorder_main}
use rp_ecosystem.Recorder.Unchecked.{mains-given}

-- The registers open, and the driver has no memory.
abbrev registers : Host
registers = record {
  opened = pos 3;
  map_size = some 0x2000;
  mapped = some 0x1000;
  ioctl_result = pos 0;
  ioctl_size = 0;
  page_size = 4096;
}

abbrev refusing : Host
refusing = record registers { opened = pos 4; ioctl_result = negsuc 0 }

abbrev cleared : Device
cleared o = 0

-- The writer runs at the address 0x400000, which is the size that was asked for.
mains-given_example :
    let left = uio_setup 0x400000 cleared in
    let left' = recorder_setup 0x400000 cleared in
    (uio_main registers refusing cleared (λ a. 0) ≡ faulted left)
    × (recorder_main registers refusing cleared (λ a. 0) ≡ faulted left')
    × (left 4 ≡ 0x400000)
    × (left' 4 ≡ 0x400000)
    × (bit (left 0) 2 ≡ 1)
    × (bit (left' 0) 2 ≡ 1)
mains-given_example =
    mains-given registers refusing cleared (λ a. 0) 0x2000 0x1000 2 refl refl refl (omega arith)
