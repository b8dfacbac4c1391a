-- ===== src/Bmp180/Copy.antt =====
-- The readings and the compensation in apps/rp_bmp180/bmp180.c, up to the conversion of the
-- temperature to `float`: a second copy of the driver of projects/lago_v1_3.
use rp_ecosystem.Base.{
  ℕ, ◌+◌, ◌-◌, ◌*◌, ◌/◌, ◌%◌, ◌^◌, bit_and, Bool, true, false, ◌&&◌, List, [], ◌∷◌, ◌++◌, Option,
  none, some, ltb, ◌==◌, if◌then◌else◌, ◌≡◌, refl,
}
use rp_ecosystem.Base.Int.{ℤ, pos, negsuc, ◌+ℤ◌, ◌-ℤ◌, ◌*ℤ◌, eqb_ℤ, shr_ℤ, div_ℤ, to_word, signed}
use rp_ecosystem.Bmp180.Sensor.{
  Op, write_byte, usleep, Bus, Eprom, bmp180_ctrl, bmp180_reg_tmp, bmp180_reg_pre, swap_bytes,
  pressure_mode, bmp180_read_eprom, bmp180_read_eprom_reg, bmp180_read_raw_temperature,
  bmp180_read_raw_pressure,
}
use rp_ecosystem.Bmp180.Compensation.{
  b5_of, b3_of, b4_of, b7_of, adjust, temperature_of, pressure_of, bmp180_temperature,
  bmp180_pressure,
}

-- The bytes of a word in the other order.
unfoldable pub app_swap_bytes : ℕ → ℕ
app_swap_bytes word =
    let value = bit_and word 0xFFFF in bit_and (value * 2 ^ 8) 0xFF00 + value / 2 ^ 8

-- `app_read_eprom_reg`.
unfoldable pub app_read_eprom_reg : Bus → List Op → ℕ → Bool → ℤ
unfolding app_swap_bytes
app_read_eprom_reg bus done reg sign =
    let store = app_swap_bytes (bus.read_word_data done reg) in
    if sign && ltb 32767 store then pos store -ℤ pos 65536 else pos store

-- `app_read_eprom` over `bmp180_register_table`: the register and the sign of each coefficient.
unfoldable pub app_read_eprom : Bus → List Op → Eprom
unfolding app_read_eprom_reg
app_read_eprom bus done = record {
  ac1 = app_read_eprom_reg bus done 0xAA true;
  ac2 = app_read_eprom_reg bus done 0xAC true;
  ac3 = app_read_eprom_reg bus done 0xAE true;
  ac4 = app_read_eprom_reg bus done 0xB0 false;
  ac5 = app_read_eprom_reg bus done 0xB2 false;
  ac6 = app_read_eprom_reg bus done 0xB4 false;
  b1 = app_read_eprom_reg bus done 0xB6 true;
  b2 = app_read_eprom_reg bus done 0xB8 true;
  mb = app_read_eprom_reg bus done 0xBA true;
  mc = app_read_eprom_reg bus done 0xBC true;
  md = app_read_eprom_reg bus done 0xBE true;
}

-- `app_read_raw_temperature`, with what it did on the bus.
unfoldable pub app_read_raw_temperature : Bus → List Op → ℕ × List Op
unfolding app_swap_bytes
app_read_raw_temperature bus done =
    let done' = done ++ write_byte bmp180_ctrl 0x2E ∷ usleep 5000 ∷ [] in
    (app_swap_bytes (bus.read_word_data done' bmp180_reg_tmp), done')

-- The command and the time of an oversampling mode.
unfoldable pub app_pressure_mode : ℕ → ℕ × ℕ
app_pressure_mode oss =
    if oss == 1
    then (0x74, 8000)
    else if oss == 2
    then (0xB4, 14000)
    else if oss == 3
    then (0xF4, 26000)
    else (0x34, 5000)

-- `app_read_raw_pressure` with the mode of the sensor; none for a shift by a negative number.
unfoldable pub app_read_raw_pressure : Bus → ℕ → List Op → Option (ℕ × List Op)
unfolding app_pressure_mode
app_read_raw_pressure bus oss done =
    let (cmd, wait) = app_pressure_mode (oss % 2 ^ 8) in
    let done' = done ++ write_byte bmp180_ctrl cmd ∷ usleep wait ∷ [] in
    let msb = bit_and (bus.read_byte_data done' bmp180_reg_pre) 0xFF in
    let lsb = bit_and (bus.read_byte_data done' (bmp180_reg_pre + 1)) 0xFF in
    let xlsb = bit_and (bus.read_byte_data done' (bmp180_reg_pre + 2)) 0xFF in
    if ltb 8 oss then none else some ((msb * 2 ^ 16 + lsb * 2 ^ 8 + xlsb) / 2 ^ (8 - oss), done')

-- `B5`, from the raw temperature.
unfoldable pub app_b5_of : Eprom → ℤ → Option ℤ
app_b5_of e ut =
    let x1 = shr_ℤ ((ut -ℤ e.ac6) *ℤ e.ac5) 15 in
    let d = x1 +ℤ e.md in
    if eqb_ℤ d (pos 0) then none else some (x1 +ℤ div_ℤ (e.mc *ℤ pos (2 ^ 11)) d)

-- The temperature in tenths of a degree.
unfoldable pub app_temperature_of : Eprom → ℤ → Option ℤ
unfolding app_b5_of
app_temperature_of e ut = elim (app_b5_of e ut) [
  | none ↦ none
  | some b5 ↦ some (shr_ℤ (b5 +ℤ pos 8) 4)
]

-- `app_temperature`.
unfoldable pub app_temperature : Bus → Eprom → List Op → Option ℤ
unfolding app_temperature_of
app_temperature bus e done = app_temperature_of e (pos (app_read_raw_temperature bus done).0)

-- `B3`, `B4` and `B7` of the pressure.
unfoldable pub app_b3_of : Eprom → ℕ → ℤ → ℤ
app_b3_of e oss b6 =
    let x1 = shr_ℤ (shr_ℤ (e.b2 *ℤ (b6 *ℤ b6)) 12) 11 in
    let x2 = shr_ℤ (e.ac2 *ℤ b6) 11 in
    div_ℤ ((e.ac1 *ℤ pos 4 +ℤ (x1 +ℤ x2)) *ℤ pos (2 ^ oss) +ℤ pos 2) (pos 4)

unfoldable pub app_b4_of : Eprom → ℤ → ℕ
app_b4_of e b6 =
    let x1 = shr_ℤ (e.ac3 *ℤ b6) 13 in
    let x2 = shr_ℤ (e.b1 *ℤ shr_ℤ (b6 *ℤ b6) 12) 16 in
    let x3 = shr_ℤ (x1 +ℤ x2 +ℤ pos 2) 2 in
    to_word 32 e.ac4 * to_word 32 (x3 +ℤ pos 32768) % 2 ^ 32 / 2 ^ 15

unfoldable pub app_b7_of : ℕ → ℤ → ℤ → ℕ
app_b7_of oss up b3 = to_word 32 (up -ℤ b3) * (50000 / 2 ^ oss) % 2 ^ 32

-- The last steps, from `p` on.
unfoldable pub app_adjust : ℤ → ℤ
app_adjust p =
    let x1 = shr_ℤ (shr_ℤ p 8 *ℤ shr_ℤ p 8 *ℤ pos 3038) 16 in
    let x2 = shr_ℤ (negsuc 7356 *ℤ p) 16 in p +ℤ shr_ℤ (x1 +ℤ x2 +ℤ pos 3791) 4

-- The pressure in pascal, from the raw values.
unfoldable pub app_pressure_of : Eprom → ℕ → ℤ → ℤ → Option ℤ
unfolding app_b5_of app_b3_of app_b4_of app_b7_of app_adjust
app_pressure_of e oss ut up = elim (app_b5_of e ut) [
  | none ↦ none
  | some b5 ↦
      let b6 = b5 -ℤ pos 4000 in
      let b4 = app_b4_of e b6 in
      let b7 = app_b7_of oss up (app_b3_of e oss b6) in
      if b4 == 0
      then none
      else some
          (app_adjust (signed 32 (if ltb b7 (2 ^ 31) then b7 * 2 / b4 else b7 / b4 * 2 % 2 ^ 32)))
]

-- `app_pressure`.
unfoldable pub app_pressure : Bus → Eprom → ℕ → List Op → Option ℤ
unfolding app_pressure_of
app_pressure bus e oss done =
    let (ut, done') = app_read_raw_temperature bus done in
    elim (app_read_raw_pressure bus oss done') [
      | none ↦ none
      | some (up, _) ↦ app_pressure_of e oss (pos ut) (pos up)
    ]

-- On every bus, with every coefficient, the two copies of the driver give the same calibration,
-- temperature and pressure.
copy-driver :
    (bus : Bus) (e : Eprom) (oss : ℕ) (done : List Op)
    → (app_read_eprom bus done ≡ bmp180_read_eprom bus done)
      × (app_temperature bus e done ≡ bmp180_temperature bus e done)
      × (app_pressure bus e oss done ≡ bmp180_pressure bus e oss done)
unfolding app_read_eprom app_read_eprom_reg app_temperature app_pressure app_pressure_of app_b5_of
    app_b3_of app_b4_of app_b7_of app_adjust app_temperature_of app_read_raw_temperature
    app_read_raw_pressure app_pressure_mode app_swap_bytes bmp180_read_eprom bmp180_read_eprom_reg
    bmp180_temperature bmp180_pressure pressure_of b5_of b3_of b4_of b7_of adjust temperature_of
    bmp180_read_raw_temperature bmp180_read_raw_pressure pressure_mode swap_bytes
copy-driver bus e oss done = (refl, refl, refl)
