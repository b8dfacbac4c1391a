-- ===== src/Gpio/Tests.antt =====
-- The theorems of gpio_led_test.c at concrete inputs.
use mathlib.Core.Option
use rp_ecosystem.Base.{ℕ, some, ◌≡◌, ◌==◌, if◌then◌else◌, inl, refl, arith}
use rp_ecosystem.Base.Libc.{atoi}
use rp_ecosystem.Base.Int.{negsuc}
use rp_ecosystem.Base.Text.{codes}
use rp_ecosystem.Gpio.Text.{itoa, digits_of, digit_of, copy_back, sign_of}
use rp_ecosystem.Gpio.Numerals.{atoi-itoa}
use rp_ecosystem.Gpio.Strings.{Memory, strcat, Holds, Outside, strcat-append}

itoa_text : itoa (negsuc 1203) 10 ≡ some (codes "-1204")
unfolding itoa digits_of digit_of copy_back sign_of
itoa_text = refl

atoi-itoa_example : Option.map atoi (itoa (negsuc 1203) 10) ≡ some (negsuc 1203)
atoi-itoa_example = atoi-itoa (negsuc 1203) (omega arith)

-- "7" at 0 and ".." at 10.
abbrev two_strings : Memory
two_strings a = if a == 0 then b'7' else if a == 10 then b'.' else if a == 11 then b'.' else 0

strcat-append_example :
    (m' : Memory) × (strcat 3 two_strings 0 10 ≡ some m')
    × Holds m' 0 (codes "7..")
    × ((b : ℕ) → Outside b 1 2 → m' b ≡ two_strings b)
strcat-append_example =
    strcat-append 3 two_strings 0 10 (codes "7") (codes "..") (ground arith) (ground arith)
      (inl (omega arith)) (omega arith) (omega arith)
