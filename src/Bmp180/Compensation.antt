-- ===== src/Bmp180/Compensation.antt =====
-- `bmp180_temperature` and `bmp180_pressure` of bmp180.c, up to the conversion of their results to
-- `float`. Values of `long` have no bound here (beyond 31 bits the code has no defined result);
-- those of `unsigned long` wrap around at 32 bits. None stands for a division by zero.
use rp_ecosystem.Base.{ℕ, ◌*◌, ◌/◌, ◌%◌, ◌^◌, List, Option, none, some, ltb, ◌==◌, if◌then◌else◌}
use rp_ecosystem.Base.Int.{ℤ, pos, negsuc, ◌+ℤ◌, ◌-ℤ◌, ◌*ℤ◌, eqb_ℤ, shr_ℤ, div_ℤ, to_word, signed}
use rp_ecosystem.Bmp180.Sensor.{
  Op, Bus, Eprom, bmp180_read_raw_temperature, bmp180_read_raw_pressure,
}

-- `B5`, from the raw temperature.
unfoldable pub b5_of : Eprom → ℤ → Option ℤ
b5_of e ut =
    let x1 = shr_ℤ ((ut -ℤ e.ac6) *ℤ e.ac5) 15 in
    let d = x1 +ℤ e.md in
    if eqb_ℤ d (pos 0) then none else some (x1 +ℤ div_ℤ (e.mc *ℤ pos (2 ^ 11)) d)

-- The temperature in tenths of a degree.
unfoldable pub temperature_of : Eprom → ℤ → Option ℤ
unfolding b5_of
temperature_of e ut = elim (b5_of e ut) [ none ↦ none | some b5 ↦ some (shr_ℤ (b5 +ℤ pos 8) 4) ]

-- `B3`, `B4` and `B7` of the pressure.
unfoldable pub b3_of : Eprom → ℕ → ℤ → ℤ
b3_of e oss b6 =
    let x1 = shr_ℤ (shr_ℤ (e.b2 *ℤ (b6 *ℤ b6)) 12) 11 in
    let x2 = shr_ℤ (e.ac2 *ℤ b6) 11 in
    div_ℤ ((e.ac1 *ℤ pos 4 +ℤ (x1 +ℤ x2)) *ℤ pos (2 ^ oss) +ℤ pos 2) (pos 4)

unfoldable pub b4_of : Eprom → ℤ → ℕ
b4_of e b6 =
    let x1 = shr_ℤ (e.ac3 *ℤ b6) 13 in
    let x2 = shr_ℤ (e.b1 *ℤ shr_ℤ (b6 *ℤ b6) 12) 16 in
    let x3 = shr_ℤ (x1 +ℤ x2 +ℤ pos 2) 2 in
    to_word 32 e.ac4 * to_word 32 (x3 +ℤ pos 32768) % 2 ^ 32 / 2 ^ 15

unfoldable pub b7_of : ℕ → ℤ → ℤ → ℕ
b7_of oss up b3 = to_word 32 (up -ℤ b3) * (50000 / 2 ^ oss) % 2 ^ 32

-- The last steps, from `p` on.
unfoldable pub adjust : ℤ → ℤ
adjust p =
    let x1 = shr_ℤ (shr_ℤ p 8 *ℤ shr_ℤ p 8 *ℤ pos 3038) 16 in
    let x2 = shr_ℤ (negsuc 7356 *ℤ p) 16 in p +ℤ shr_ℤ (x1 +ℤ x2 +ℤ pos 3791) 4

-- The pressure in pascal, from the raw values.
unfoldable pub pressure_of : Eprom → ℕ → ℤ → ℤ → Option ℤ
unfolding b5_of b3_of b4_of b7_of adjust
pressure_of e oss ut up = elim (b5_of e ut) [
  | none ↦ none
  | some b5 ↦
      let b6 = b5 -ℤ pos 4000 in
      let b4 = b4_of e b6 in
      let b7 = b7_of oss up (b3_of e oss b6) in
      if b4 == 0
      then none
      else some (adjust (signed 32 (if ltb b7 (2 ^ 31) then b7 * 2 / b4 else b7 / b4 * 2 % 2 ^ 32)))
]

-- `bmp180_temperature`.
unfoldable pub bmp180_temperature : Bus → Eprom → List Op → Option ℤ
unfolding temperature_of
bmp180_temperature bus e done = temperature_of e (pos (bmp180_read_raw_temperature bus done).0)

-- `bmp180_pressure`.
unfoldable pub bmp180_pressure : Bus → Eprom → ℕ → List Op → Option ℤ
unfolding pressure_of
bmp180_pressure bus e oss done =
    let (ut, done') = bmp180_read_raw_temperature bus done in
    elim (bmp180_read_raw_pressure bus oss done') [
      | none ↦ none
      | some (up, _) ↦ pressure_of e oss (pos ut) (pos up)
    ]
