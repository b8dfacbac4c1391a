-- ===== src/Recorder/Setup.antt =====
-- The registers that the programs write around a recording.
use rp_ecosystem.Base.{ℕ, ◌+◌, ◌-◌, ◌*◌, ◌%◌, ◌^◌, bit_and, bit_or}
use rp_ecosystem.Zynq.Registers.{Device, dev_read, dev_write}
use rp_ecosystem.Zynq.System.{clear_bits, set_bits}

-- The offsets of the headers of these programs.
abbrev pub wr_addr_offset : ℕ
wr_addr_offset = 0x4

abbrev pub nsamples_offset : ℕ
nsamples_offset = 0x8

abbrev pub old_nsamples_offset : ℕ
old_nsamples_offset = 0x4

-- `main` of adc_recorder_uio between the initialisation and the printing; the values read before an
-- unconditional write are not used.
unfoldable pub uio_setup : ℕ → Device → Device
unfolding clear_bits set_bits
uio_setup dev_size cfg =
    let c = dev_write cfg wr_addr_offset dev_size in
    let c = dev_write c nsamples_offset (1024 * 1024 - 1) in
    let c = clear_bits 4 c in
    let c = set_bits 4 c in
    let c = clear_bits 1 c in let c = set_bits 1 c in let c = clear_bits 2 c in set_bits 2 c

-- `main` of adc_recorder.
unfoldable pub recorder_setup : ℕ → Device → Device
unfolding clear_bits set_bits
recorder_setup dev_size cfg =
    let c = dev_write cfg wr_addr_offset dev_size in
    let c = dev_write c nsamples_offset (1024 * 1024 - 1) in
    let c = clear_bits 4 c in
    let c = set_bits 4 c in
    let c = clear_bits 1 c in let c = set_bits 1 c in let c = clear_bits 2 c in set_bits 2 c

-- `main` of adc_recorder_old.
unfoldable pub old_setup : Device → Device
unfolding clear_bits set_bits
old_setup cfg =
    let c = clear_bits 4 cfg in
    let c = set_bits 4 c in
    let c = clear_bits 1 c in
    let c = set_bits 1 c in
    let c = clear_bits 2 c in
    let c = dev_write c old_nsamples_offset (1024 * 1024 - 1) in set_bits 2 c

-- `main` of counter_test before and after the printing.
unfoldable pub counter_setup : ℕ → Device → Device
unfolding clear_bits set_bits
counter_setup dev_size cfg =
    let c = clear_bits 1 cfg in
    let c = clear_bits 2 c in
    let c = clear_bits 4 c in
    let c = dev_write c wr_addr_offset dev_size in
    let c = dev_write c nsamples_offset 65536 in
    let c = set_bits 2 c in let c = set_bits 4 c in set_bits 1 c

unfoldable pub counter_stop : Device → Device
unfolding clear_bits
counter_stop cfg = clear_bits 1 cfg

-- `*rst = byte` of the register's low byte.
unfoldable pub write_byte : Device → ℕ → Device
write_byte cfg byte = dev_write cfg 0 (dev_read cfg 0 - dev_read cfg 0 % 256 + byte)

unfoldable pub byte_clear : ℕ → Device → Device
unfolding write_byte
byte_clear mask cfg = write_byte cfg (bit_and (dev_read cfg 0 % 256) (2 ^ 8 - 1 - mask))

unfoldable pub byte_set : ℕ → Device → Device
unfolding write_byte
byte_set mask cfg = write_byte cfg (bit_or (dev_read cfg 0 % 256) mask)

-- `main` of adc-recorder.c, which holds the reset register as a byte.
unfoldable pub mem_setup : ℕ → Device → Device
unfolding byte_clear byte_set
mem_setup size cfg =
    let c = dev_write cfg 4 size in
    let c = dev_write c 8 (1024 * 1024 - 1) in
    let c = byte_clear 4 c in
    let c = byte_set 4 c in
    let c = byte_clear 1 c in let c = byte_set 1 c in let c = byte_clear 2 c in byte_set 2 c
