-- ===== src/Recorder/Reset.antt =====
-- The registers as the setups leave them.
use rp_ecosystem.Base.{
  ℕ, ◌-◌, ◌*◌, ◌<◌, min, max, true, ◌&&◌, ◌==◌, ltb, if◌then◌else◌, ◌≡◌, ◌≢◌, refl, arith,
}
use rp_ecosystem.Base.Bits.{bit, bit-bit_and, bit-bit_or, all_below, bit_table}
use rp_ecosystem.Zynq.Registers.{Device}
use rp_ecosystem.Zynq.System.{not32}
use rp_ecosystem.Recorder.Setup.{uio_setup, counter_setup, counter_stop}

-- What the three pulses do to a bit of the reset register.
abbrev pub pulse_bit : ℕ → ℕ → ℕ
pulse_bit k b =
    let w = max (min b (bit (not32 4) k)) (bit 4 k) in
    let f = max (min w (bit (not32 1) k)) (bit 1 k) in max (min f (bit (not32 2) k)) (bit 2 k)

pub pulse_table :
    all_below 32 (λ i.
      let want = λ (b : ℕ). if ltb i 3 then 1 else b in
      pulse_bit i 0 == want 0 && pulse_bit i 1 == want 1)
    ≡ true
unfolding all_below
pulse_table = refl

pub uio_setup-reset :
    (dev_size : ℕ) (cfg : Device) (k : ℕ)
    → k < 32
    → bit (uio_setup dev_size cfg 0) k ≡ (if ltb k 3 then 1 else bit (cfg 0) k)
unfolding uio_setup
uio_setup-reset dev_size cfg k h =
    simp (bit-bit_or, bit-bit_and)
      (bit_table 32 pulse_bit (λ i b. if ltb i 3 then 1 else b) k (cfg 0) pulse_table h)

-- The setup of adc_recorder_uio ends with the bits 0 to 2 of the reset register set and its other
-- bits of 32 kept, the writer's address the size that the allocation left, 1024 * 1024 - 1 samples,
-- and no other register changed.
pub uio_setup-registers :
    (dev_size : ℕ) (cfg : Device) (k o : ℕ)
    → k < 32
    → o ≢ 0
    → o ≢ 4
    → o ≢ 8
    → (bit (uio_setup dev_size cfg 0) k ≡ (if ltb k 3 then 1 else bit (cfg 0) k))
      × (uio_setup dev_size cfg 4 ≡ dev_size)
      × (uio_setup dev_size cfg 8 ≡ 1024 * 1024 - 1)
      × (uio_setup dev_size cfg o ≡ cfg o)
unfolding uio_setup
uio_setup-registers dev_size cfg k o h n0 n4 n8 =
    (uio_setup-reset dev_size cfg k h, refl, refl, ground arith)

-- What counter_test does to a bit before and after its printing.
abbrev counter_bit : ℕ → ℕ → ℕ
counter_bit k b =
    let c = min (min (min b (bit (not32 1) k)) (bit (not32 2) k)) (bit (not32 4) k) in
    max (max (max c (bit 2 k)) (bit 4 k)) (bit 1 k)

abbrev stopped_bit : ℕ → ℕ → ℕ
stopped_bit k b = min (counter_bit k b) (bit (not32 1) k)

counter_table :
    all_below 32 (λ i.
      let want = λ (b : ℕ). if ltb i 3 then 1 else b in
      counter_bit i 0 == want 0 && counter_bit i 1 == want 1)
    ≡ true
unfolding all_below
counter_table = refl

stopped_table :
    all_below 32 (λ i.
      let want = λ (b : ℕ). if i == 0 then 0 else if ltb i 3 then 1 else b in
      stopped_bit i 0 == want 0 && stopped_bit i 1 == want 1)
    ≡ true
unfolding all_below
stopped_table = refl

-- While counter_test prints, the bits 0 to 2 of the reset register are set and the others as they
-- were; afterwards the counters alone are in reset again: bit 0 is clear. The writer has the address
-- that the allocation left and 65536 samples, then as well.
counter_stop-setup :
    (dev_size : ℕ) (cfg : Device) (k : ℕ)
    → k < 32
    → (bit (counter_setup dev_size cfg 0) k ≡ (if ltb k 3 then 1 else bit (cfg 0) k))
      × (bit (counter_stop (counter_setup dev_size cfg) 0) k
          ≡ (if k == 0 then 0 else if ltb k 3 then 1 else bit (cfg 0) k))
      × (counter_stop (counter_setup dev_size cfg) 4 ≡ dev_size)
      × (counter_stop (counter_setup dev_size cfg) 8 ≡ 65536)
unfolding counter_setup counter_stop
counter_stop-setup dev_size cfg k h = (
  simp (bit-bit_or, bit-bit_and)
      (bit_table 32 counter_bit (λ i b. if ltb i 3 then 1 else b) k (cfg 0) counter_table h),
  simp (bit-bit_or, bit-bit_and)
      (bit_table 32 stopped_bit (λ i b. if i == 0 then 0 else if ltb i 3 then 1 else b) k (cfg 0)
        stopped_table h),
  refl,
  refl,
)
