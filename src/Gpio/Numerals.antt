-- ===== src/Gpio/Numerals.antt =====
-- `itoa` and `atoi` are inverse on decimal numerals of 32 bits.
use rp_ecosystem.Base.{
  ℕ, zero, suc, ◌+◌, ◌*◌, ◌/◌, ◌%◌, ◌^◌, ◌<◌, true, some, Bytes, [], ◌∷◌, ◌==◌, ◌≡◌, refl, ap, ◌∙◌,
  arith, Bool-cases, inl, inr,
}
use mathlib.Core.Option
use native.Mathlib.Nat.{pow-suc}
use rp_ecosystem.Base.Int.{ℤ, pos, negsuc, sub_ℕ}
use rp_ecosystem.Base.Libc.{atoi, digits_value, digit}
use rp_ecosystem.Base.Numerals.{IsNumeral, atoi-IsNumeral, atoi-minus}
use rp_ecosystem.Gpio.Text.{digit_of, digits_of, copy_back, itoa}

digit-digit_of : (i : ℕ) → i < 10 → digit 10 (digit_of i) ≡ some i
unfolding digit digit_of
digit-digit_of i h = ground arith

value_of_digit :
    (acc i : ℕ) (s : Bytes)
    → i < 10
    → digits_value 10 acc (digit_of i ∷ s) ≡ digits_value 10 (acc * 10 + i) s
unfolding digits_value
value_of_digit acc i s h = rw (digits_value, digit-digit_of i h) refl

value_of_last :
    (v : ℕ) (s : Bytes)
    → v / 10 ≡ 0
    → digits_value 10 0 (digit_of (v % 10) ∷ s) ≡ digits_value 10 v s
value_of_last v s q =
    let d = value_of_digit 0 (v % 10) s (omega arith) in
    let e : 0 * 10 + v % 10 ≡ v = omega arith in d ∙ ap (λ w. digits_value 10 w s) e

-- The digits copied in front of s add their value to what s is read with.
value_of_digits :
    (fuel v : ℕ) (s : Bytes)
    → v < 10 ^ suc fuel
    → digits_value 10 0 (copy_back (digits_of (suc fuel) 10 v) s) ≡ digits_value 10 v s
unfolding digits_of copy_back
value_of_digits zero v s h =
    let q : v / 10 ≡ 0 = omega arith in
    let last : (v / 10 == 0) ≡ true = ground arith in rw last (value_of_last v s q)
value_of_digits (suc fuel) v s h = elim (Bool-cases (v / 10 == 0)) [
  | inl last ↦ let q : v / 10 ≡ 0 = ground arith in rw last (value_of_last v s q)
  | inr more ↦
      let b : v / 10 < 10 ^ suc fuel = omega (arith, pow-suc 10 (suc fuel)) in
      let ih = value_of_digits fuel (v / 10) (digit_of (v % 10) ∷ s) b in
      let d = value_of_digit (v / 10) (v % 10) s (omega arith) in
      let e : v / 10 * 10 + v % 10 ≡ v = omega arith in
      rw more (ih ∙ d ∙ ap (λ w. digits_value 10 w s) e)
]

IsNumeral-copy_back :
    (fuel v : ℕ) (s : Bytes) → IsNumeral s → IsNumeral (copy_back (digits_of fuel 10 v) s)
unfolding digits_of copy_back digit_of
IsNumeral-copy_back zero v s h = h
IsNumeral-copy_back (suc fuel) v s h =
    let head : IsNumeral (digit_of (v % 10) ∷ s) = ground arith in
    elim (Bool-cases (v / 10 == 0)) [
      | inl last ↦ rw last head
      | inr more ↦ rw more (IsNumeral-copy_back fuel (v / 10) (digit_of (v % 10) ∷ s) head)
    ]

abbrev text_of : ℕ → Bytes
text_of v = copy_back (digits_of 33 10 v) []

value-text_of : (v : ℕ) → v < 2 ^ 32 → digits_value 10 0 (text_of v) ≡ v
unfolding digits_value
value-text_of v h = value_of_digits 32 v [] (omega arith)

text_of-IsNumeral : (v : ℕ) → IsNumeral (text_of v)
unfolding digits_of copy_back digit_of
text_of-IsNumeral v =
    let head : IsNumeral (digit_of (v % 10) ∷ []) = ground arith in
    elim (Bool-cases (v / 10 == 0)) [
      | inl last ↦ rw last head
      | inr more ↦ rw more (IsNumeral-copy_back 32 (v / 10) (digit_of (v % 10) ∷ []) head)
    ]

abbrev pub InRange : ℤ → Type 0
InRange (pos n) = n < 2 ^ 31
InRange (negsuc n) = n < 2 ^ 31

-- Of every number of 32 bits, `itoa` gives in base 10 a text of which `atoi` gives the number again.
pub atoi-itoa : (value : ℤ) → InRange value → Option.map atoi (itoa value 10) ≡ some value
unfolding itoa
atoi-itoa (pos n) h =
    let t = value-text_of n (omega arith) in
    let a = atoi-IsNumeral (text_of n) (text_of-IsNumeral n) (rw t h) in ap some (a ∙ ap pos t)
atoi-itoa (negsuc n) h =
    let t = value-text_of (n + 1) (omega arith) in
    let a = atoi-minus (text_of (n + 1)) (text_of-IsNumeral (n + 1)) (rw t (omega arith)) in
    let e : sub_ℕ 0 (n + 1) ≡ negsuc n = ground arith in ap some (a ∙ ap (λ v. sub_ℕ 0 v) t ∙ e)
