-- ===== src/Recorder/Programs.antt =====
-- `main` of the three copies of adc-recorder.c, which map the devices from /dev/mem.
use rp_ecosystem.Base.{
  ℕ, zero, suc, ◌+◌, ◌-◌, ◌*◌, List, [], ◌∷◌, Option, none, some, if◌then◌else◌, ◌≡◌, refl, arith,
}
use rp_ecosystem.Base.Int.{ℤ, pos, ltb_ℤ, signed}
use rp_ecosystem.Zynq.Registers.{Device, dev_write}
use rp_ecosystem.Zynq.System.{clear_bits, set_bits}
use rp_ecosystem.Recorder.Memory.{Ram, half_at, mem_lines}
use rp_ecosystem.Recorder.Setup.{byte_clear, byte_set, mem_setup}
use rp_ecosystem.Recorder.Lines.{Recording, stored, first_half, second_half}

-- What the system answers: the two files, the request for a buffer with the address that it leaves, the
-- registers that the first `mmap` gives at a physical address (none for MAP_FAILED), and the buffer
-- that the second gives, with what it holds when it is printed.
pub record Host : Type 0 where
  pub mem_opened : ℤ
  pub cfg : ℕ → Option Device
  pub cma_opened : ℤ
  pub ioctl_result : ℤ
  pub ioctl_size : ℕ
  pub ram : Option Ram

-- How a program ends: with EXIT_FAILURE and no register written, by an access through MAP_FAILED, or
-- with the registers that it leaves and the lines that it prints.
pub data Exit : Type 0 where
  failed : Exit
  faulted : Exit
  finished : Device → List (ℤ × ℤ) → Exit

-- The two mappings, which the programs do not test, behind a setup of the registers.
unfoldable pub record_through :
    (Device → Device) → (Ram → List (ℤ × ℤ)) → Option Device → Option Ram → Exit
record_through setup lines none ram = faulted
record_through setup lines (some cfg) none = faulted
record_through setup lines (some cfg) (some ram) = finished (setup cfg) (lines ram)

-- The three early returns of the programs that ask the driver for their buffer.
unfoldable pub after_opens : Host → Exit → Exit
after_opens h e =
    if ltb_ℤ h.mem_opened (pos 0)
    then failed
    else if ltb_ℤ h.cma_opened (pos 0)
    then failed
    else if ltb_ℤ h.ioctl_result (pos 0)
    then failed
    else e

-- projects/adc_recorder/adc-recorder.c.
unfoldable pub mem_main : Host → Exit
unfolding record_through after_opens
mem_main h = after_opens h (
    record_through (mem_setup h.ioctl_size) (λ ram. mem_lines ram 0 (1024 * 1024))
      (h.cfg 0x40000000) h.ram)

-- projects/adc_recorder_uio/adc-recorder.c: its registers and its loop.
unfoldable pub uio_mem_setup : ℕ → Device → Device
unfolding byte_clear byte_set
uio_mem_setup size cfg =
    let c = dev_write cfg 4 size in
    let c = dev_write c 8 (1024 * 1024 - 1) in
    let c = byte_clear 4 c in
    let c = byte_set 4 c in
    let c = byte_clear 1 c in let c = byte_set 1 c in let c = byte_clear 2 c in byte_set 2 c

unfoldable pub uio_mem_lines : Ram → ℕ → ℕ → List (ℤ × ℤ)
uio_mem_lines ram i zero = []
uio_mem_lines ram i (suc n) =
    (signed 16 (half_at ram (2 * (2 * i + 0))), signed 16 (half_at ram (2 * (2 * i + 1))))
    ∷ uio_mem_lines ram (suc i) n

unfoldable pub uio_mem_main : Host → Exit
unfolding record_through after_opens
uio_mem_main h = after_opens h (
    record_through (uio_mem_setup h.ioctl_size) (λ ram. uio_mem_lines ram 0 (1024 * 1024))
      (h.cfg 0x40001000) h.ram)

-- projects/adc_recorder_old/adc-recorder.c: the buffer stands at a fixed address.
unfoldable pub old_mem_setup : Device → Device
unfolding clear_bits set_bits
old_mem_setup cfg =
    let c = clear_bits 4 cfg in
    let c = set_bits 4 c in
    let c = clear_bits 1 c in
    let c = set_bits 1 c in
    let c = clear_bits 2 c in let c = dev_write c 4 (1024 * 1024 - 1) in set_bits 2 c

unfoldable pub old_mem_lines : Ram → ℕ → ℕ → List (ℤ × ℤ)
old_mem_lines ram i zero = []
old_mem_lines ram i (suc n) =
    (signed 16 (half_at ram (4 * i + 0)), signed 16 (half_at ram (4 * i + 2)))
    ∷ old_mem_lines ram (suc i) n

unfoldable pub old_mem_main : Host → Exit
unfolding record_through
old_mem_main h =
    if ltb_ℤ h.mem_opened (pos 0)
    then failed
    else record_through old_mem_setup (λ ram. old_mem_lines ram 0 (1024 * 1024)) (h.cfg 0x40000000)
        h.ram

-- The pairs of a recording from i on, as the numbers with a sign that they stand for.
unfoldable pub pairs_of : Recording → ℕ → ℕ → List (ℤ × ℤ)
pairs_of p i zero = []
pairs_of p i (suc n) = (signed 16 (p i).0, signed 16 (p i).1) ∷ pairs_of p (suc i) n

pub mem_lines-stored : (p : Recording) (i n : ℕ) → mem_lines (stored p) i n ≡ pairs_of p i n
unfolding mem_lines pairs_of
mem_lines-stored p i zero = refl
mem_lines-stored p i (suc n) =
    let a0 : 2 * (2 * i + 0) ≡ 4 * i = omega arith in
    let a1 : 2 * (2 * i + 1) ≡ 4 * i + 2 = omega arith in
    rw (a0, a1, first_half p i, second_half p i, mem_lines-stored p (suc i) n) refl

pub uio_mem_lines-mem_lines : (ram : Ram) (i n : ℕ) → uio_mem_lines ram i n ≡ mem_lines ram i n
unfolding uio_mem_lines mem_lines
uio_mem_lines-mem_lines ram i zero = refl
uio_mem_lines-mem_lines ram i (suc n) = rw (uio_mem_lines-mem_lines ram (suc i) n) refl

pub old_mem_lines-stored : (p : Recording) (i n : ℕ) → old_mem_lines (stored p) i n ≡ pairs_of p i n
unfolding old_mem_lines pairs_of
old_mem_lines-stored p i zero = refl
old_mem_lines-stored p i (suc n) =
    let a0 : 4 * i + 0 ≡ 4 * i = omega arith in
    rw (a0, first_half p i, second_half p i, old_mem_lines-stored p (suc i) n) refl
