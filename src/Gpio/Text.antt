-- ===== src/Gpio/Text.antt =====
-- `itoa` and `strcat` of gpio_led_test.c.
use rp_ecosystem.Base.{
  ℕ, zero, suc, ◌+◌, ◌-◌, ◌/◌, ◌%◌, ◌^◌, Bool, true, false, ◌||◌, Option, none, some, Bytes, [],
  ◌∷◌, ltb, leb, ◌==◌, if◌then◌else◌,
}
use rp_ecosystem.Base.Int.{ℤ, pos, negsuc}

-- A digit of `itoa`.
unfoldable pub digit_of : ℕ → ℕ
digit_of i = if ltb i 10 then i + b'0' else i + b'a' - 10

-- `while (v || tp == tmp)` on the fuel of the 33 bytes of `tmp`: the digits, the last one first, as
-- they stand in `tmp`. Every digit after the first needs v not to be 0.
unfoldable pub digits_of : ℕ → ℕ → ℕ → Bytes
unfolding digit_of
digits_of zero radix v = []
digits_of (suc fuel) radix v =
    let rest = digits_of fuel radix (v / radix) in
    digit_of (v % radix) ∷ (if v / radix == 0 then [] else rest)

-- `while (tp > tmp) { *sp++ = *--tp; }`.
unfoldable pub copy_back : Bytes → Bytes → Bytes
copy_back [] sp = sp
copy_back (c ∷ tmp) sp = copy_back tmp (c ∷ sp)

-- `sign`, and the `unsigned v` of `value`; of the least `int`, whose negation C leaves undefined, it
-- is 2 ^ 31.
unfoldable pub sign_of : ℤ → ℕ → Bool × ℕ
sign_of (pos n) radix = (false, n)
sign_of (negsuc n) radix = if radix == 10 then (true, n + 1) else (false, 2 ^ 32 - (n + 1))

-- `itoa`: nothing when the radix is out of range.
unfoldable pub itoa : ℤ → ℕ → Option Bytes
unfolding digits_of copy_back sign_of
itoa value radix =
    let (sign, v) = sign_of value radix in
    let text = copy_back (digits_of 33 radix v) [] in
    if ltb 36 radix || leb radix 1 then none else some (if sign then b'-' ∷ text else text)
