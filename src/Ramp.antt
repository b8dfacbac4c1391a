-- ===== src/Ramp.antt =====
-- projects/ramp_test/ramp_test.c, which writes its argument to a register.
use rp_ecosystem.Base.{
  ℕ, ◌^◌, ◌<◌, min, max, true, false, ◌&&◌, ◌==◌, List, [], ◌∷◌, Option, none, some, if◌then◌else◌,
  ◌≡◌, ◌≢◌, refl, Bytes, arith,
}
use rp_ecosystem.Base.Int.{ℤ, pos, ltb_ℤ, to_word}
use rp_ecosystem.Base.Bits.{bit, bit-bit_and, bit-bit_or, all_below, bit_table}
use rp_ecosystem.Base.Libc.{atoi, digits_value}
use rp_ecosystem.Base.Numerals.{IsNumeral, atoi-IsNumeral}
use rp_ecosystem.Zynq.Registers.{Device, dev_write}
use rp_ecosystem.Zynq.System.{not32, clear_bits, set_bits}

-- How the program ends: with the usage; without /dev/mem; by an access through MAP_FAILED; by
-- `atoi` of a null pointer, behind the registers written so far; or with the registers it leaves.
pub data Exit : Type 0 where
  usage : Exit
  not_opened : Exit
  faulted : Exit
  crashed : Device → Exit
  finished : Device → Exit

-- The reset of pwm_gen.
unfoldable pub reset_pulse : Device → Device
unfolding clear_bits set_bits
reset_pulse cfg = set_bits 1 (clear_bits 1 cfg)

-- `atoi(argv[1])` into the register at 4.
unfoldable pub write_level : List Bytes → Device → Exit
unfolding atoi to_word
write_level [] cfg = crashed cfg
write_level (arg ∷ rest) cfg = finished (dev_write cfg 4 (to_word 32 (atoi arg)))

-- `main`: `argc` is the length of `argv`, so that its test asks whether even the name is missing.
unfoldable pub main : List Bytes → ℤ → Option Device → Exit
unfolding reset_pulse write_level
main [] opened cfg = usage
main (name ∷ args) opened cfg =
    if ltb_ℤ opened (pos 0)
    then not_opened
    else elim cfg [ none ↦ faulted | some c ↦ write_level args (reset_pulse c) ]

pulse_table :
    all_below 32 (λ i.
      let now = λ (b : ℕ). max (min b (bit (not32 1) i)) (bit 1 i) in
      let want = λ (b : ℕ). if i == 0 then 1 else b in now 0 == want 0 && now 1 == want 1)
    ≡ true
unfolding all_below
pulse_table = refl

reset_pulse-bit :
    (cfg : Device) (k : ℕ)
    → k < 32
    → bit (reset_pulse cfg 0) k ≡ (if k == 0 then 1 else bit (cfg 0) k)
unfolding reset_pulse clear_bits set_bits
reset_pulse-bit cfg k h =
    simp (bit-bit_or, bit-bit_and)
      (bit_table 32 (λ i b. max (min b (bit (not32 1) i)) (bit 1 i))
        (λ i b. if i == 0 then 1 else b) k (cfg 0) pulse_table h)

-- With a numeral below 2 ^ 31 the program leaves its value at 4, bit 0 of the reset register set and
-- every other bit of 32 and every other register as it was; without an argument it writes the reset
-- register alike and then reads through a null pointer.
main-level :
    (name s : Bytes) (rest : List Bytes) (opened : ℤ) (cfg : Device) (k o : ℕ)
    → IsNumeral s
    → digits_value 10 0 s < 2 ^ 31
    → ltb_ℤ opened (pos 0) ≡ false
    → k < 32
    → o ≢ 0
    → o ≢ 4
    → let left = dev_write (reset_pulse cfg) 4 (digits_value 10 0 s) in
      (main (name ∷ s ∷ rest) opened (some cfg) ≡ finished left)
      × (main (name ∷ []) opened (some cfg) ≡ crashed (reset_pulse cfg))
      × (bit (left 0) k ≡ (if k == 0 then 1 else bit (cfg 0) k))
      × (left o ≡ cfg o)
unfolding main write_level to_word reset_pulse clear_bits set_bits
main-level name s rest opened cfg k o n v p h n0 n4 =
    let value : to_word 32 (atoi s) ≡ digits_value 10 0 s =
      rw (atoi-IsNumeral s n v) (omega arith) in
    (rw (p, value) refl, rw p refl, reset_pulse-bit cfg k h, ground arith)
