-- ===== src/Bmp180/Sensor.antt =====
-- The raw readings and the calibration of bmp180.c. What the bus answers is a parameter.
use rp_ecosystem.Base.{
  ℕ, ◌+◌, ◌-◌, ◌*◌, ◌/◌, ◌%◌, ◌^◌, bit_and, Bool, true, false, ◌&&◌, List, [], ◌∷◌, ◌++◌, Option,
  none, some, ltb, ◌==◌, if◌then◌else◌,
}
use rp_ecosystem.Base.Int.{ℤ, pos, ◌-ℤ◌}

-- What the driver does on the bus: it writes a byte to a register, or sleeps.
pub data Op : Type 0 where
  write_byte : ℕ → ℕ → Op
  usleep : ℕ → Op

-- The answers of `i2c_smbus_read_word_data` and `i2c_smbus_read_byte_data` for a register, behind
-- what was done so far: bit patterns of 32 bits.
pub record Bus : Type 0 where
  pub read_word_data : List Op → ℕ → ℕ
  pub read_byte_data : List Op → ℕ → ℕ

-- The coefficients.
pub record Eprom : Type 0 where
  pub ac1 : ℤ
  pub ac2 : ℤ
  pub ac3 : ℤ
  pub ac4 : ℤ
  pub ac5 : ℤ
  pub ac6 : ℤ
  pub b1 : ℤ
  pub b2 : ℤ
  pub mb : ℤ
  pub mc : ℤ
  pub md : ℤ

abbrev pub bmp180_ctrl : ℕ
bmp180_ctrl = 0xF4

abbrev pub bmp180_reg_tmp : ℕ
bmp180_reg_tmp = 0xF6

abbrev pub bmp180_reg_pre : ℕ
bmp180_reg_pre = 0xF6

-- The bytes of a word in the other order.
unfoldable pub swap_bytes : ℕ → ℕ
swap_bytes word = let value = bit_and word 0xFFFF in bit_and (value * 2 ^ 8) 0xFF00 + value / 2 ^ 8

-- `bmp180_read_raw_temperature`, with what it did on the bus.
unfoldable pub bmp180_read_raw_temperature : Bus → List Op → ℕ × List Op
unfolding swap_bytes
bmp180_read_raw_temperature bus done =
    let done' = done ++ write_byte bmp180_ctrl 0x2E ∷ usleep 5000 ∷ [] in
    (swap_bytes (bus.read_word_data done' bmp180_reg_tmp), done')

-- The command and the time of an oversampling mode.
unfoldable pub pressure_mode : ℕ → ℕ × ℕ
pressure_mode oss =
    if oss == 1
    then (0x74, 8000)
    else if oss == 2
    then (0xB4, 14000)
    else if oss == 3
    then (0xF4, 26000)
    else (0x34, 5000)

-- `bmp180_read_raw_pressure` with the mode of the sensor; none for a shift by a negative number.
unfoldable pub bmp180_read_raw_pressure : Bus → ℕ → List Op → Option (ℕ × List Op)
unfolding pressure_mode
bmp180_read_raw_pressure bus oss done =
    let (cmd, wait) = pressure_mode (oss % 2 ^ 8) in
    let done' = done ++ write_byte bmp180_ctrl cmd ∷ usleep wait ∷ [] in
    let msb = bit_and (bus.read_byte_data done' bmp180_reg_pre) 0xFF in
    let lsb = bit_and (bus.read_byte_data done' (bmp180_reg_pre + 1)) 0xFF in
    let xlsb = bit_and (bus.read_byte_data done' (bmp180_reg_pre + 2)) 0xFF in
    if ltb 8 oss then none else some ((msb * 2 ^ 16 + lsb * 2 ^ 8 + xlsb) / 2 ^ (8 - oss), done')

-- `bmp180_read_eprom_reg`.
unfoldable pub bmp180_read_eprom_reg : Bus → List Op → ℕ → Bool → ℤ
unfolding swap_bytes
bmp180_read_eprom_reg bus done reg sign =
    let store = swap_bytes (bus.read_word_data done reg) in
    if sign && ltb 32767 store then pos store -ℤ pos 65536 else pos store

-- `bmp180_read_eprom` over `bmp180_register_table`: the register and the sign of each coefficient.
unfoldable pub bmp180_read_eprom : Bus → List Op → Eprom
unfolding bmp180_read_eprom_reg
bmp180_read_eprom bus done = record {
  ac1 = bmp180_read_eprom_reg bus done 0xAA true;
  ac2 = bmp180_read_eprom_reg bus done 0xAC true;
  ac3 = bmp180_read_eprom_reg bus done 0xAE true;
  ac4 = bmp180_read_eprom_reg bus done 0xB0 false;
  ac5 = bmp180_read_eprom_reg bus done 0xB2 false;
  ac6 = bmp180_read_eprom_reg bus done 0xB4 false;
  b1 = bmp180_read_eprom_reg bus done 0xB6 true;
  b2 = bmp180_read_eprom_reg bus done 0xB8 true;
  mb = bmp180_read_eprom_reg bus done 0xBA true;
  mc = bmp180_read_eprom_reg bus done 0xBC true;
  md = bmp180_read_eprom_reg bus done 0xBE true;
}
