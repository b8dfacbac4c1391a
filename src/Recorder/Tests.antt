-- ===== src/Recorder/Tests.antt =====
-- The theorems of the recorders at concrete inputs.
use rp_ecosystem.Base.{ℕ, ◌*◌, some, true, ltb, ◌==◌, if◌then◌else◌, refl, ◌-◌, ◌^◌, ◌≡◌, arith}
use rp_ecosystem.Base.Int.{pos}
use rp_ecosystem.Zynq.Registers.{Device}
use rp_ecosystem.Zynq.System.{init_system}
use rp_ecosystem.Recorder.Setup.{mem_setup, uio_setup}
use rp_ecosystem.Recorder.Lines.{Recording, stored}
use rp_ecosystem.Recorder.Agree.{mem_setup-uio_setup}
use rp_ecosystem.Recorder.System.{
  uio_init_system, recorder_init_system, counter_init_system, old_init_system, init_system-copies,
}
use rp_ecosystem.Recorder.Memory.{uio_lines, mem_lines, recorder_lines, old_lines, counter_lines}
use rp_ecosystem.Recorder.Programs.{
  Host, mem_main, uio_mem_main, old_mem_main, uio_mem_lines, old_mem_lines, pairs_of,
}
use rp_ecosystem.Recorder.Stored.{Ends, Armed, ArmedAt4, mains-stored}
use rp_ecosystem.Recorder.Bounds.{lines-Agree}

-- The first channel counts up, the second holds -1.
abbrev ramp : Recording
ramp i = (i, 0xFFFF)

abbrev ones : Device
ones o = 2 ^ 32 - 1

abbrev zeros : Device
zeros o = 0

mem_setup-uio_setup_example : mem_setup 0x1000 ones 0 ≡ uio_setup 0x1000 ones 0
mem_setup-uio_setup_example = mem_setup-uio_setup 0x1000 ones 0 (omega arith)

-- Every register held its own offset; the first trigger level.
init_system-copies_example :
    (old_init_system (λ o. o) 8 ≡ init_system (λ o. o) 8)
    × (uio_init_system (λ o. o) 8 ≡ 1048576)
    × (recorder_init_system (λ o. o) 8 ≡ 1048576)
    × (counter_init_system (λ o. o) 8 ≡ 1048576)
    × (init_system (λ o. o) 8 ≡ 8190)
init_system-copies_example = init_system-copies (λ o. o) 8

-- A host whose driver gives a buffer.
abbrev with_buffer : Host
with_buffer = record {
  mem_opened = pos 3;
  cfg = λ base. some (if base == 0x40001000 then zeros else ones);
  cma_opened = pos 4;
  ioctl_result = pos 0;
  ioctl_size = 0x1E000000;
  ram = some (stored ramp);
}

-- The bit 5 of the reset register and the register behind the number of samples.
mains-stored_example :
    Ends true (mem_main with_buffer) (pairs_of ramp 0 (1024 * 1024)) (Armed 0x1E000000 ones 5 12)
    × Ends true
        (uio_mem_main with_buffer)
        (pairs_of ramp 0 (1024 * 1024))
        (Armed 0x1E000000 zeros 5 12)
    × Ends true (old_mem_main with_buffer) (pairs_of ramp 0 (1024 * 1024)) (ArmedAt4 ones 5 12)
mains-stored_example =
    mains-stored with_buffer ones zeros ramp 5 12 refl refl refl (omega arith) (omega arith)
      (omega arith) (λ e. omega arith) (λ e. omega arith) (λ e. omega arith)

-- One line, from a memory of zeros and one that differs behind it.
lines-Agree_example :
    let m : ℕ → ℕ = λ a. 0 in
    let m' : ℕ → ℕ = λ a. if ltb a 4 then 0 else 7 in
    (uio_lines m 0 1 ≡ uio_lines m' 0 1)
    × (recorder_lines m 0 1 ≡ recorder_lines m' 0 1)
    × (old_lines m 0 1 ≡ old_lines m' 0 1)
    × (counter_lines m 0 1 ≡ counter_lines m' 0 1)
    × (mem_lines m 0 1 ≡ mem_lines m' 0 1)
    × (uio_mem_lines m 0 1 ≡ uio_mem_lines m' 0 1)
    × (old_mem_lines m 0 1 ≡ old_mem_lines m' 0 1)
lines-Agree_example = lines-Agree (λ a. 0) (λ a. if ltb a 4 then 0 else 7) 1 (λ a h. ground arith)
