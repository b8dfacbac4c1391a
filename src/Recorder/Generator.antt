-- ===== src/Recorder/Generator.antt =====
-- adc_test/server/gen.c: the arguments and the registers they give.
use rp_ecosystem.Base.{
  ℕ, ◌%◌, ◌^◌, Bool, false, ◌||◌, Option, none, some, ◌==◌, if◌then◌else◌, Bytes, ◌≡◌, ◌≤◌, ◌⊎◌,
  inl, inr, Bool-cases, arith,
}
use rp_ecosystem.Base.Int.{ℤ, pos, ltb_ℤ, pos_part}

-- The registers of the two channels of gen.c: a phase increment and an amplitude each.
pub record Generator : Type 0 where
  pub phase_1 : ℕ
  pub phase_2 : ℕ
  pub amplitude_1 : ℕ
  pub amplitude_2 : ℕ

pub data Exit : Type 0 where
  usage : Exit
  exited : Generator → Exit

-- The floating-point expression `floor(number[2] / 125.0e6 * (1<<30) + 0.5)`, and `strtol` with base
-- 10: the number, or nothing when it reports a range error or reads no digit.
module _ (phase : ℤ → ℕ) (strtol : Bytes → Option ℤ) where
  -- The test of the three numbers.
  unfoldable pub out_of_range : ℤ → ℤ → ℤ → Bool
  out_of_range channel level frequency =
      ltb_ℤ channel (pos 1)
      || ltb_ℤ (pos 2) channel
      || ltb_ℤ level (pos 0)
      || ltb_ℤ (pos 32766) level
      || ltb_ℤ frequency (pos 0)
      || ltb_ℤ (pos 61440000) frequency

  -- The `switch` on the channel.
  unfoldable pub set_channel : ℤ → ℤ → ℤ → Generator → Generator
  set_channel channel level frequency g =
      if pos_part channel == 1
      then record g { phase_1 = phase frequency; amplitude_1 = pos_part level % 2 ^ 16 }
      else if pos_part channel == 2
      then record g { phase_2 = phase frequency; amplitude_2 = pos_part level % 2 ^ 16 }
      else g

  -- `main` after the numbers are read, where the device can be opened.
  unfoldable pub generate : Option ℤ → Option ℤ → Option ℤ → Generator → Exit
  unfolding out_of_range set_channel
  generate (some channel) (some level) (some frequency) g =
      if out_of_range channel level frequency
      then usage
      else exited (set_channel channel level frequency g)
  generate _ _ _ g = usage

  -- `main` with three arguments: each is read in turn, and an error in one of them ends it.
  unfoldable pub gen : Bytes → Bytes → Bytes → Generator → Exit
  unfolding generate
  gen a b c g = generate (strtol a) (strtol b) (strtol c) g

  -- One channel set to a level in its range, and the other's registers as they were.
  abbrev pub SetsOne : Generator → Generator → Type 0
  SetsOne g g' =
      ((g'.amplitude_1 ≤ 32766) × (g'.phase_2 ≡ g.phase_2) × (g'.amplitude_2 ≡ g.amplitude_2))
      ⊎ ((g'.amplitude_2 ≤ 32766) × (g'.phase_1 ≡ g.phase_1) × (g'.amplitude_1 ≡ g.amplitude_1))

  abbrev pub Sets : Generator → Exit → Type 0
  Sets g usage = Unit
  Sets g (exited g') = SetsOne g g'

  set_channel-SetsOne :
      (channel level frequency : ℤ) (g : Generator)
      → out_of_range channel level frequency ≡ false
      → SetsOne g (set_channel channel level frequency g)
  unfolding out_of_range set_channel
  set_channel-SetsOne channel level frequency g h = ground arith

  generate-Sets : (x y z : Option ℤ) (g : Generator) → Sets g (generate x y z g)
  unfolding generate
  generate-Sets none y z g = tt
  generate-Sets (some x) none z g = tt
  generate-Sets (some x) (some y) none g = tt
  generate-Sets (some x) (some y) (some z) g = elim (Bool-cases (out_of_range x y z)) [
    | inl out ↦ rw out tt
    | inr within ↦ rw within (set_channel-SetsOne x y z g within)
  ]

  -- Whatever the arguments, `gen` either prints the usage, or it sets the amplitude of one channel to
  -- at most 32766 and leaves the registers of the other channel as they were.
  pub gen-Sets : (a b c : Bytes) (g : Generator) → Sets g (gen a b c g)
  unfolding gen
  gen-Sets a b c g = generate-Sets (strtol a) (strtol b) (strtol c) g
