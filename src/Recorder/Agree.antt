-- ===== src/Recorder/Agree.antt =====
-- The recorder over /dev/mem and the one over UIO set the same registers.
use rp_ecosystem.Base.{
  ℕ, ◌+◌, ◌-◌, ◌*◌, ◌/◌, ◌%◌, ◌^◌, ◌<◌, bit_and, bit_or, ◌≡◌, refl, sym, ap, ◌∙◌, arith,
}
use rp_ecosystem.Base.Bits.{bit_and_mask}
use rp_ecosystem.Base.Fields.{bit_and_split, bit_or_split, bit_and-lt, bit_or-lt}
use rp_ecosystem.Zynq.Registers.{Device, dev_write}
use rp_ecosystem.Zynq.System.{not32, clear_bits, set_bits}
use rp_ecosystem.Recorder.Setup.{write_byte, byte_clear, byte_set, mem_setup, uio_setup}

-- A device whose reset register holds 32 bits.
abbrev pub IsWord : Device → Type 0
IsWord cfg = cfg 0 < 2 ^ 32

clear_value :
    (w mask : ℕ)
    → w < 2 ^ 32
    → mask < 2 ^ 8
    → bit_and w (2 ^ 32 - 1 - mask) ≡ w - w % 256 + bit_and (w % 256) (2 ^ 8 - 1 - mask)
clear_value w mask h k =
    let q = w / 2 ^ 8 in
    let r = w % 2 ^ 8 in
    let parts : q * 2 ^ 8 + r ≡ w = omega arith in
    let m : 2 ^ 32 - 1 - mask ≡ (2 ^ 24 - 1) * 2 ^ 8 + (2 ^ 8 - 1 - mask) = omega arith in
    let split : bit_and (q * 2 ^ 8 + r) ((2 ^ 24 - 1) * 2 ^ 8 + (2 ^ 8 - 1 - mask))
        ≡ bit_and q (2 ^ 24 - 1) * 2 ^ 8 + bit_and r (2 ^ 8 - 1 - mask) =
      bit_and_split 8 q r (2 ^ 24 - 1) (2 ^ 8 - 1 - mask) (omega arith) (omega arith) in
    let here : bit_and w (2 ^ 32 - 1 - mask)
        ≡ bit_and q (2 ^ 24 - 1) * 2 ^ 8 + bit_and r (2 ^ 8 - 1 - mask) =
      rw m (rw parts at split) in
    omega (arith, here, bit_and_mask 24 q)

set_value : (w mask : ℕ) → mask < 2 ^ 8 → bit_or w mask ≡ w - w % 256 + bit_or (w % 256) mask
set_value w mask k =
    let q = w / 2 ^ 8 in
    let r = w % 2 ^ 8 in
    let parts : q * 2 ^ 8 + r ≡ w = omega arith in
    let split : bit_or (q * 2 ^ 8 + r) mask ≡ q * 2 ^ 8 + bit_or r mask =
      bit_or_split 8 q r mask (omega arith) k in
    let here : bit_or w mask ≡ q * 2 ^ 8 + bit_or r mask = rw parts at split in omega (arith, here)

byte_clear-clear_bits :
    (mask : ℕ) (c : Device) → IsWord c → mask < 2 ^ 8 → byte_clear mask c ≡ clear_bits mask c
unfolding byte_clear write_byte clear_bits
byte_clear-clear_bits mask c h k = ap (dev_write c 0) (sym (clear_value (c 0) mask h k))

byte_set-set_bits : (mask : ℕ) (c : Device) → mask < 2 ^ 8 → byte_set mask c ≡ set_bits mask c
unfolding byte_set write_byte set_bits
byte_set-set_bits mask c k = ap (dev_write c 0) (sym (set_value (c 0) mask k))

clear_bits-IsWord : (mask : ℕ) (c : Device) → IsWord c → IsWord (clear_bits mask c)
unfolding clear_bits
clear_bits-IsWord mask c h = bit_and-lt 32 (c 0) (not32 mask) h

set_bits-IsWord : (mask : ℕ) (c : Device) → IsWord c → mask < 2 ^ 8 → IsWord (set_bits mask c)
unfolding set_bits
set_bits-IsWord mask c h k = bit_or-lt 32 (c 0) mask h (omega arith)

-- A pulse of one bit of the reset register.
pulse :
    (mask : ℕ) (c d : Device)
    → c ≡ d
    → IsWord d
    → mask < 2 ^ 8
    → (byte_set mask (byte_clear mask c) ≡ set_bits mask (clear_bits mask d))
      × IsWord (set_bits mask (clear_bits mask d))
pulse mask c d e h k = (
  ap (λ x. byte_set mask (byte_clear mask x)) e
      ∙ ap (byte_set mask) (byte_clear-clear_bits mask d h k)
      ∙ byte_set-set_bits mask (clear_bits mask d) k,
  set_bits-IsWord mask (clear_bits mask d) (clear_bits-IsWord mask d h) k,
)

-- From a reset register of 32 bits, adc-recorder.c, which holds it as a byte, leaves the same registers
-- as adc_recorder_uio, which holds it as a word.
pub mem_setup-uio_setup :
    (size : ℕ) (cfg : Device) (o : ℕ) → cfg 0 < 2 ^ 32 → mem_setup size cfg o ≡ uio_setup size cfg o
unfolding mem_setup uio_setup
mem_setup-uio_setup size cfg o h =
    let c = dev_write (dev_write cfg 4 size) 8 (1024 * 1024 - 1) in
    let (a, i) = pulse 4 c c refl h (omega arith) in
    let (b, j) =
      pulse 1 (byte_set 4 (byte_clear 4 c)) (set_bits 4 (clear_bits 4 c)) a i (omega arith) in
    let (d, k) =
      pulse 2 (byte_set 1 (byte_clear 1 (byte_set 4 (byte_clear 4 c))))
        (set_bits 1 (clear_bits 1 (set_bits 4 (clear_bits 4 c)))) b j (omega arith) in
    λ p. d p o
