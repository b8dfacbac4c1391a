-- ===== src/Bmp180/Range.antt =====
-- The 32 bits of the `long` values of the temperature's compensation.
use rp_ecosystem.Base.{
  ℕ, zero, suc, ◌+◌, ◌-◌, ◌*◌, ◌/◌, ◌%◌, ◌^◌, ◌≤◌, ◌<◌, List, [], ◌∷◌, some, ◌≡◌, ◌∙◌, ap, bit_and,
  true, false, arith,
}
use native.Mathlib.Nat.{mul-div-le}
use rp_ecosystem.Base.Int.{
  ℤ, pos, negsuc, pos_part, neg_part, ◌+ℤ◌, ◌-ℤ◌, ◌*ℤ◌, ◌≤ℤ◌, shr_ℤ, div_ℤ, +ℤ_parts,
}
use rp_ecosystem.Base.Bits.{bit_and_mask, bit_and_shift}
use rp_ecosystem.Bmp180.Sensor.{
  Op, Bus, Eprom, swap_bytes, bmp180_read_eprom_reg, bmp180_read_eprom, bmp180_read_raw_temperature,
}
use rp_ecosystem.Bmp180.Compensation.{b5_of, temperature_of, bmp180_temperature}

-- A value of `long`.
abbrev pub IsLong : ℤ → Type 0
IsLong x = (negsuc (2 ^ 31 - 1) ≤ℤ x) × (x ≤ℤ pos (2 ^ 31 - 1))

-- A number of 16 bits with a sign, and one without.
abbrev pub IsShort : ℤ → Type 0
IsShort x = (negsuc (2 ^ 15 - 1) ≤ℤ x) × (x ≤ℤ pos (2 ^ 15 - 1))

abbrev pub IsUnsigned : ℤ → Type 0
IsUnsigned x = (pos 0 ≤ℤ x) × (x ≤ℤ pos (2 ^ 16 - 1))

mul_bound : (a b : ℕ) → (m n : ℕ) → a ≤ m → b ≤ n → a * b ≤ m * n
mul_bound a b m n p q = grind arith

-- The product of X1.
x1_product :
    (d c : ℤ)
    → IsShort d
    → IsUnsigned c
    → (negsuc (2 ^ 31 - 1) ≤ℤ d *ℤ c) × (d *ℤ c ≤ℤ pos (2 ^ 31 - 1))
unfolding ◌*ℤ◌
x1_product (pos a) (pos b) h k = ground (arith, mul_bound a b 32767 65535)
x1_product (negsuc a) (pos b) h k = ground (arith, mul_bound (suc a) b 32768 65535)
x1_product d (negsuc b) h k = absurd (omega arith)

-- The values of `X1`, `X1 + md`, `X2`.
abbrev x1_of : Eprom → ℤ → ℤ
x1_of e ut = shr_ℤ ((ut -ℤ e.ac6) *ℤ e.ac5) 15

x1_bound :
    (p : ℤ)
    → negsuc (2 ^ 31 - 1) ≤ℤ p
    → p ≤ℤ pos (2 ^ 31 - 1)
    → (negsuc (2 ^ 16 - 1) ≤ℤ shr_ℤ p 15) × (shr_ℤ p 15 ≤ℤ pos (2 ^ 16 - 1))
unfolding shr_ℤ
x1_bound (pos n) h k = omega arith
x1_bound (negsuc n) h k = omega arith

le_mul : (q b : ℕ) → q ≤ suc b * q
le_mul q b = grind arith

div-le : (a b : ℕ) → a / b ≤ a
div-le a zero = omega arith
div-le a (suc b) = omega (arith, le_mul (a / suc b) b, mul-div-le a (suc b))

-- A quotient is at most as large as what is divided.
div_bound : (a d : ℤ) → pos_part (div_ℤ a d) + neg_part (div_ℤ a d) ≤ pos_part a + neg_part a
unfolding div_ℤ
div_bound (pos a) (pos b) = omega (arith, div-le a b)
div_bound (pos a) (negsuc b) = ground (arith, div-le a (suc b))
div_bound (negsuc a) (pos b) = ground (arith, div-le (suc a) b)
div_bound (negsuc a) (negsuc b) = omega (arith, div-le (suc a) (suc b))

-- Every value that `bmp180_temperature` computes in `long` or `int`, in its order, from the raw
-- temperature; the divisor is the fifth, and the last is the result in tenths of a degree.
unfoldable pub temperature_values : Eprom → ℤ → List ℤ
temperature_values e ut =
    let dif = ut -ℤ e.ac6 in
    let product = dif *ℤ e.ac5 in
    let x1 = shr_ℤ product 15 in
    let shifted = e.mc *ℤ pos (2 ^ 11) in
    let divisor = x1 +ℤ e.md in
    let x2 = div_ℤ shifted divisor in
    let b5 = x1 +ℤ x2 in
    dif ∷ product ∷ x1 ∷ shifted ∷ divisor ∷ x2 ∷ b5 ∷ (b5 +ℤ pos 8) ∷ shr_ℤ (b5 +ℤ pos 8) 4 ∷ []

abbrev pub AllLong : List ℤ → Type 0
AllLong [] = Unit
AllLong (x ∷ xs) = IsLong x × AllLong xs

abbrev pub last_of : ℤ → List ℤ → ℤ
last_of x [] = x
last_of x (y ∷ ys) = last_of y ys

-- Coefficients as the sensor's table gives them, and a reading within 2 ^ 15 of `AC6`.
abbrev pub InRange : Eprom → ℤ → Type 0
InRange e ut = IsShort (ut -ℤ e.ac6) × IsUnsigned e.ac5 × IsShort e.mc × IsShort e.md

shifted_bound :
    (mc : ℤ) → IsShort mc → pos_part (mc *ℤ pos (2 ^ 11)) + neg_part (mc *ℤ pos (2 ^ 11)) ≤ 2 ^ 26
unfolding ◌*ℤ◌
shifted_bound mc h = ground arith

abbrev Within : ℤ → Type 0
Within x = (negsuc (2 ^ 27) ≤ℤ x) × (x ≤ℤ pos (2 ^ 27))

tenths : (x : ℤ) → Within x → IsLong (x +ℤ pos 8) × IsLong (shr_ℤ (x +ℤ pos 8) 4)
unfolding shr_ℤ ◌+ℤ◌
tenths x h = ground arith

temperature_values-AllLong :
    (e : Eprom) (ut t : ℤ)
    → InRange e ut
    → temperature_of e ut ≡ some t
    → AllLong (temperature_values e ut) × (last_of (pos 0) (temperature_values e ut) ≡ t)
unfolding temperature_values temperature_of b5_of
temperature_values-AllLong e ut t (d, c, m, k) h =
    let p = x1_product (ut -ℤ e.ac6) e.ac5 d c in
    let x = x1_bound ((ut -ℤ e.ac6) *ℤ e.ac5) p.0 p.1 in
    let s = shifted_bound e.mc m in
    let q = div_bound (e.mc *ℤ pos (2 ^ 11)) (x1_of e ut +ℤ e.md) in
    let x2 = div_ℤ (e.mc *ℤ pos (2 ^ 11)) (x1_of e ut +ℤ e.md) in
    let b : Within (x1_of e ut +ℤ x2) = omega (arith, +ℤ_parts (x1_of e ut) x2) in
    let (r, f) = tenths (x1_of e ut +ℤ x2) b in
    (
      (
        omega arith,
        (
          p,
          (
            omega arith,
            (
              omega arith,
              (
                omega (arith, +ℤ_parts (x1_of e ut) e.md),
                (omega arith, (omega arith, (r, (f, tt)))),
              ),
            ),
          ),
        ),
      ),
      ground arith,
    )

swap_bytes-lt : (w : ℕ) → swap_bytes w < 2 ^ 16
unfolding swap_bytes
swap_bytes-lt w =
    let value = bit_and w 0xFFFF in
    let high : bit_and (value * 2 ^ 8) (0xFF * 2 ^ 8) ≡ value % 2 ^ 8 * 2 ^ 8 =
      bit_and_shift 8 value 0xFF ∙ ap (λ t. t * 2 ^ 8) (bit_and_mask 8 value) in
    omega (arith, high, bit_and_mask 16 w)

coefficient-IsShort :
    (bus : Bus) (done : List Op) (reg : ℕ) → IsShort (bmp180_read_eprom_reg bus done reg true)
unfolding bmp180_read_eprom_reg ◌-ℤ◌
coefficient-IsShort bus done reg = ground (arith, swap_bytes-lt (bus.read_word_data done reg))

coefficient-IsUnsigned :
    (bus : Bus) (done : List Op) (reg : ℕ) → IsUnsigned (bmp180_read_eprom_reg bus done reg false)
unfolding bmp180_read_eprom_reg
coefficient-IsUnsigned bus done reg = ground (arith, swap_bytes-lt (bus.read_word_data done reg))

-- With the coefficients that the driver read from the sensor, whatever the bus answered, and a raw
-- temperature within 2 ^ 15 of `AC6`, a temperature that is computed at all is computed without a
-- value that leaves the 32 bits of its `long`, and is the last of these values.
pub temperature_values-IsLong :
    (bus : Bus) (before done : List Op) (t : ℤ)
    → let e = bmp180_read_eprom bus before in
      let ut = pos (bmp180_read_raw_temperature bus done).0 in
      IsShort (ut -ℤ e.ac6)
      → bmp180_temperature bus e done ≡ some t
      → AllLong (temperature_values e ut) × (last_of (pos 0) (temperature_values e ut) ≡ t)
unfolding bmp180_read_eprom bmp180_temperature
temperature_values-IsLong bus before done t d h =
    temperature_values-AllLong (bmp180_read_eprom bus before)
      (pos (bmp180_read_raw_temperature bus done).0) t
      (
        d,
        coefficient-IsUnsigned bus before 0xB2,
        coefficient-IsShort bus before 0xBC,
        coefficient-IsShort bus before 0xBE,
      )
      h
