-- ===== src/Bmp180/Bytes.antt =====
-- The readings against the bytes that the sensor holds.
use rp_ecosystem.Base.{
  ℕ, ◌+◌, ◌-◌, ◌*◌, ◌/◌, ◌%◌, ◌^◌, ◌<◌, bit_and, ◌≡◌, arith, ap, refl, zero, suc, ◌∙◌, Bool, false,
  List, some, ltb, if◌then◌else◌, [], ◌∷◌, ◌++◌,
}
use rp_ecosystem.Base.Bits.{bit_and_mask, bit_and_shift}
use rp_ecosystem.Base.Int.{pos, ◌-ℤ◌, signed}
use rp_ecosystem.Bmp180.Sensor.{
  Op, Bus, write_byte, usleep, swap_bytes, pressure_mode, bmp180_ctrl, bmp180_read_raw_pressure,
  bmp180_read_eprom_reg,
}

-- The bus reads a word with the byte of the lower address in its low half.
abbrev pub Holds : Bus → List Op → (ℕ → ℕ) → Type 0
Holds bus done rom =
    (reg : ℕ) → (rom reg < 2 ^ 8) × (bus.read_word_data done reg ≡ rom (reg + 1) * 2 ^ 8 + rom reg)

-- The coefficient whose two bytes stand from a register on, the high byte first.
abbrev pub big_endian : (ℕ → ℕ) → ℕ → ℕ
big_endian rom reg = rom reg * 2 ^ 8 + rom (reg + 1)

swap_bytes_word : (l h : ℕ) → l < 2 ^ 8 → h < 2 ^ 8 → swap_bytes (l * 2 ^ 8 + h) ≡ h * 2 ^ 8 + l
unfolding swap_bytes
swap_bytes_word l h p q =
    let w = l * 2 ^ 8 + h in
    let low = bit_and_mask 16 w in
    let high : bit_and (w * 2 ^ 8) (0xFF * 2 ^ 8) ≡ w % 2 ^ 8 * 2 ^ 8 =
      bit_and_shift 8 w 0xFF ∙ ap (λ t. t * 2 ^ 8) (bit_and_mask 8 w) in
    let small : bit_and w 0xFFFF ≡ w = omega (arith, low) in rw (small, high) (omega arith)

-- A coefficient is read from two bytes of the sensor, the high byte first, and as a number with a
-- sign if its entry in the table asks for one.
bmp180_read_eprom_reg-big_endian :
    (bus : Bus) (done : List Op) (rom : ℕ → ℕ) (reg : ℕ) (sign : Bool)
    → Holds bus done rom
    → bmp180_read_eprom_reg bus done reg sign
      ≡ (if sign then signed 16 (big_endian rom reg) else pos (big_endian rom reg))
unfolding bmp180_read_eprom_reg signed ◌-ℤ◌
bmp180_read_eprom_reg-big_endian bus done rom reg sign h =
    let (p, e) = h reg in
    let q = (h (reg + 1)).0 in rw (e, swap_bytes_word (rom (reg + 1)) (rom reg) q p) (ground arith)

pressure_bits :
    (x y z oss : ℕ)
    → oss < 4
    → (x % 2 ^ 8 * 2 ^ 16 + y % 2 ^ 8 * 2 ^ 8 + z % 2 ^ 8) / 2 ^ (8 - oss) < 2 ^ (16 + oss)
pressure_bits x y z zero h = omega arith
pressure_bits x y z (suc zero) h = omega arith
pressure_bits x y z (suc (suc zero)) h = omega arith
pressure_bits x y z (suc (suc (suc zero))) h = omega arith
pressure_bits x y z (suc (suc (suc (suc k)))) h = absurd (omega arith)

pressure_command : (oss : ℕ) → oss < 4 → (pressure_mode (oss % 2 ^ 8)).0 ≡ 0x34 + oss * 2 ^ 6
unfolding pressure_mode
pressure_command oss h = ground arith

-- The raw pressure is made of the three bytes of the sensor, the highest first, without the bits
-- below the resolution of the mode; it has 16 bits and one more for each step of oversampling.
bmp180_read_raw_pressure-bytes :
    (bus : Bus) (oss : ℕ) (done : List Op)
    → oss < 4
    → let during =
        done ++ write_byte bmp180_ctrl (0x34 + oss * 2 ^ 6) ∷ usleep (pressure_mode oss).1 ∷ [] in
      let b = λ (i : ℕ). bus.read_byte_data during (0xF6 + i) % 2 ^ 8 in
      let up = (b 0 * 2 ^ 16 + b 1 * 2 ^ 8 + b 2) / 2 ^ (8 - oss) in
      (bmp180_read_raw_pressure bus oss done ≡ some (up, during)) × (up < 2 ^ (16 + oss))
unfolding bmp180_read_raw_pressure
bmp180_read_raw_pressure-bytes bus oss done h =
    let small : oss % 2 ^ 8 ≡ oss = omega arith in
    let during =
      done ++ write_byte bmp180_ctrl (0x34 + oss * 2 ^ 6) ∷ usleep (pressure_mode oss).1 ∷ [] in
    let b = λ (i : ℕ). bus.read_byte_data during (0xF6 + i) in
    let in_range : ltb 8 oss ≡ false = ground arith in
    (
      rw (pressure_command oss h) (
          rw small (
            rw in_range
              (rw (bit_and_mask 8 (b 0), bit_and_mask 8 (b 1), bit_and_mask 8 (b 2)) refl))),
      pressure_bits (b 0) (b 1) (b 2) oss h,
    )
