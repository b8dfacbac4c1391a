-- ===== src/Gpio/Devices.antt =====
-- `Linux_GPIO_initialize`, `LEDs_driver` and the set-up in `main` of gpio_led_test.c. A register is a
-- word at its physical address.
use rp_ecosystem.Base.{
  ℕ, ◌+◌, bit_and, List, ◌∷◌, Option, none, some, ◌>>=◌, Option-cases, inl, inr, false, ◌==◌,
  if◌then◌else◌, ◌≡◌, ◌≢◌, arith,
}
use rp_ecosystem.Base.Int.{ℤ, negsuc, eqb_ℤ}
use rp_ecosystem.Xadc.{page_of}

abbrev pub gpio_button_base_address : ℕ
gpio_button_base_address = 0x41240000

abbrev pub gpio_led_base_address : ℕ
gpio_led_base_address = 0x40000000

abbrev pub gpio_data_offset : ℕ
gpio_data_offset = 0x0000

abbrev pub gpio_direction_offset : ℕ
gpio_direction_offset = 0x0004

abbrev pub all_outputs : ℕ
all_outputs = 0

abbrev pub all_inputs : ℕ
all_inputs = 0xffffffff

-- The values of the macros TRUE and FALSE.
abbrev pub true_flag : ℕ
true_flag = 1

abbrev pub false_flag : ℕ
false_flag = 1

-- A mapped page: where it stands for the process, and its physical address.
pub record Page : Type 0 where
  pub base : ℕ
  pub physical : ℕ

-- The globals, with the pages that are mapped, the newest first, how often /dev/mem was opened, and
-- the registers.
pub record Board : Type 0 where
  pub memfd : ℤ
  pub mapped_base : ℕ
  pub pages : List Page
  pub opens : ℕ
  pub regs : ℕ → ℕ

-- A device as the code holds it: its page with the offset in it.
pub record Device : Type 0 where
  pub page : Page
  pub offset : ℕ

-- A write through a mapped pointer.
unfoldable pub write_through : Device → ℕ → ℕ → Board → Board
write_through dev offset value b = record b {
  regs = λ a. if a == dev.page.physical + dev.offset + offset then value else b.regs a;
}

-- From `mmap` on, with its answer; none ends the process.
unfoldable pub map_device : ℕ → ℕ → Option ℕ → Board → Option (Device × Board)
unfolding page_of write_through
map_device base direction mapped b = elim mapped [
  | none ↦ none
  | some v ↦
      let page : Page = record { base = v; physical = page_of base } in
      let dev : Device = record { page = page; offset = bit_and base 4095 } in
      some (
        dev,
        write_through dev gpio_direction_offset direction
            (record b { mapped_base = v; pages = page ∷ b.pages }),
      )
]

-- `Linux_GPIO_initialize`, with the answers of `open` and `mmap`.
unfoldable pub linux_gpio_initialize : ℕ → ℕ → ℕ → ℤ → Option ℕ → Board → Option (Device × Board)
unfolding map_device
linux_gpio_initialize base direction first_call opened mapped b =
    if first_call == 0
    then map_device base direction mapped b
    else if eqb_ℤ opened (negsuc 0)
    then none
    else map_device base direction mapped (record b { memfd = opened; opens = b.opens + 1 })

-- The two calls of `main`.
unfoldable pub set_up : ℤ → ℤ → Option ℕ → Option ℕ → Board → Option (Device × Device × Board)
unfolding linux_gpio_initialize
set_up opened again led_mapped button_mapped b = do
  (led, b1) ← linux_gpio_initialize gpio_led_base_address all_outputs true_flag opened led_mapped b
  (button, b2) ←
      linux_gpio_initialize gpio_button_base_address all_inputs false_flag again button_mapped b1
  some (led, button, b2)

-- `LEDs_driver`.
unfoldable pub leds_driver : Device → ℕ → Board → Board
unfolding write_through
leds_driver led image b = write_through led gpio_data_offset image b

set_up-returned :
    (opened again : ℤ) (led_mapped button_mapped : Option ℕ) (b b' : Board) (led button : Device)
    (image a : ℕ)
    → set_up opened again led_mapped button_mapped b ≡ some (led, button, b')
    → ((leds_driver led image b').regs a ≡ (
        if a == 0x40000000
        then image
        else if a == 0x41240004
        then 0xffffffff
        else if a == 0x40000004
        then 0
        else b.regs a))
      × (b'.opens ≡ b.opens + 2)
      × (b'.pages ≡ button.page ∷ led.page ∷ b.pages)
      × (b'.mapped_base ≡ button.page.base)
unfolding set_up leds_driver
set_up-returned opened again none button_mapped b b' led button image a h = ground arith
set_up-returned opened again (some v) none b b' led button image a h = ground arith
set_up-returned opened again (some v) (some w) b b' led button image a h = ground arith

set_up-ne-none :
    (opened again : ℤ) (v w : ℕ) (b : Board)
    → eqb_ℤ opened (negsuc 0) ≡ false
    → eqb_ℤ again (negsuc 0) ≡ false
    → set_up opened again (some v) (some w) b ≢ none
unfolding set_up
set_up-ne-none opened again v w b o o' e = ground arith

-- With the file open at both calls and both pages mapped, the set-up returns two devices: the lights are then
-- outputs and the buttons inputs, a pattern goes to the lights' data register, and no other register
-- is written. FALSE is 1 too, so that the file is opened twice; and of the two pages that stay mapped
-- the code remembers the second alone.
pub set_up-directions :
    (opened again : ℤ) (v w : ℕ) (b : Board) (image a : ℕ)
    → eqb_ℤ opened (negsuc 0) ≡ false
    → eqb_ℤ again (negsuc 0) ≡ false
    → (led button : Device) × (b' : Board) × (set_up opened again (some v) (some w) b
        ≡ some (led, button, b'))
      × ((leds_driver led image b').regs a ≡ (
          if a == 0x40000000
          then image
          else if a == 0x41240004
          then 0xffffffff
          else if a == 0x40000004
          then 0
          else b.regs a))
      × (b'.opens ≡ b.opens + 2)
      × (b'.pages ≡ button.page ∷ led.page ∷ b.pages)
      × (b'.mapped_base ≡ button.page.base)
set_up-directions opened again v w b image a o o' =
    elim (Option-cases (set_up opened again (some v) (some w) b)) [
      | inl e ↦ absurd (set_up-ne-none opened again v w b o o' e)
      | inr ((led, button, b'), e) ↦
          let (regs, opens, pages, base) =
            set_up-returned opened again (some v) (some w) b b' led button image a e in
          (led, button, b', e, regs, opens, pages, base)
    ]
