-- ===== src/Zynq/Reset.antt =====
-- The reset register under `init_system`, and under the start and the stop of an acquisition.
use rp_ecosystem.Base.{
  ℕ, ◌<◌, min, max, true, ◌&&◌, ◌==◌, ltb, if◌then◌else◌, ◌≡◌, ◌≢◌, refl, arith,
}
use rp_ecosystem.Base.Bits.{bit, bit-bit_and, bit-bit_or, all_below, bit_table}
use rp_ecosystem.Zynq.Registers.{Device, dev_read, cfg_reset_gral_offset}
use rp_ecosystem.Zynq.System.{not32, init_system, start_acquisition, stop_acquisition}

abbrev pub reset_word : Device → ℕ
reset_word cfg = dev_read cfg cfg_reset_gral_offset

-- What `init_system` does to bit k of the reset register.
abbrev init_bit : ℕ → ℕ → ℕ
init_bit k b =
    let cleared =
      min (min (min (min b (bit (not32 8) k)) (bit (not32 1) k)) (bit (not32 4) k))
        (bit (not32 2) k) in
    max (max (max cleared (bit 0x10 k)) (bit 8 k)) (bit 0x20 k)

init_table :
    all_below 32 (λ i.
      let want = λ (b : ℕ). if ltb i 3 then 0 else if ltb i 6 then 1 else b in
      init_bit i 0 == want 0 && init_bit i 1 == want 1)
    ≡ true
unfolding all_below
init_table = refl

-- `init_system` clears the bits 0 to 2 of the reset register, sets the bits 3 to 5 (ramp generators
-- running, false GPS, master), and keeps the other bits of its 32.
pub init_system-reset :
    (cfg : Device) (k : ℕ)
    → k < 32
    → bit (reset_word (init_system cfg)) k
      ≡ (if ltb k 3 then 0 else if ltb k 6 then 1 else bit (reset_word cfg) k)
unfolding init_system
init_system-reset cfg k h =
    simp (bit-bit_or, bit-bit_and)
      (bit_table 32 init_bit (λ i b. if ltb i 3 then 0 else if ltb i 6 then 1 else b) k
        (reset_word cfg) init_table h)

abbrev start_bit : ℕ → ℕ → ℕ
start_bit k b = max (max (max b (bit 2 k)) (bit 1 k)) (bit 4 k)

abbrev stop_bit : ℕ → ℕ → ℕ
stop_bit k b = min (min (min b (bit (not32 1) k)) (bit (not32 4) k)) (bit (not32 2) k)

start_table :
    all_below 32 (λ i.
      let want = λ (b : ℕ). if ltb i 3 then 1 else b in
      start_bit i 0 == want 0 && start_bit i 1 == want 1)
    ≡ true
unfolding all_below
start_table = refl

stop_table :
    all_below 32 (λ i.
      let want = λ (b : ℕ). if ltb i 3 then 0 else b in
      stop_bit i 0 == want 0 && stop_bit i 1 == want 1)
    ≡ true
unfolding all_below
stop_table = refl

start-bits :
    (cfg : Device) (k : ℕ)
    → k < 32
    → bit (reset_word (start_acquisition cfg)) k ≡ (if ltb k 3 then 1 else bit (reset_word cfg) k)
unfolding start_acquisition
start-bits cfg k h =
    simp bit-bit_or
      (bit_table 32 start_bit (λ i b. if ltb i 3 then 1 else b) k (reset_word cfg) start_table h)

stop-bits :
    (cfg : Device) (k : ℕ)
    → k < 32
    → bit (reset_word (stop_acquisition cfg)) k ≡ (if ltb k 3 then 0 else bit (reset_word cfg) k)
unfolding stop_acquisition
stop-bits cfg k h =
    simp bit-bit_and
      (bit_table 32 stop_bit (λ i b. if ltb i 3 then 0 else b) k (reset_word cfg) stop_table h)

-- The start of an acquisition sets the bits 0 to 2 of the reset register and keeps its other bits;
-- the stop behind it clears those three and keeps the others. Neither changes another register.
pub acquisition-reset :
    (cfg : Device) (k o : ℕ)
    → k < 32
    → o ≢ 0
    → let running = start_acquisition cfg in
      let stopped = stop_acquisition running in
      (bit (reset_word running) k ≡ (if ltb k 3 then 1 else bit (reset_word cfg) k))
      × (bit (reset_word stopped) k ≡ (if ltb k 3 then 0 else bit (reset_word cfg) k))
      × (dev_read running o ≡ dev_read cfg o)
      × (dev_read stopped o ≡ dev_read cfg o)
unfolding start_acquisition stop_acquisition
acquisition-reset cfg k o h ne = (
  start-bits cfg k h,
  ground (arith, stop-bits (start_acquisition cfg) k h, start-bits cfg k h),
  ground arith,
  ground arith,
)
