-- ===== src/Recorder/Memory.antt =====
-- The loops that print the recorded samples.
use rp_ecosystem.Base.{ℕ, zero, suc, ◌+◌, ◌*◌, ◌/◌, ◌%◌, ◌^◌, List, [], ◌∷◌}
use rp_ecosystem.Base.Int.{ℤ, signed}

-- The bytes that the writer's buffer holds.
abbrev pub Ram : Type 0
Ram = ℕ → ℕ

-- The little-endian words at an address, of 16 and of 32 bits.
abbrev pub half_at : Ram → ℕ → ℕ
half_at ram a = ram a + 256 * ram (a + 1)

abbrev pub word_at : Ram → ℕ → ℕ
word_at ram a = half_at ram a + 2 ^ 16 * half_at ram (a + 2)

-- `ch[0]`, `ch[1]` and `wo` of a printed line, as `%d` prints them.
pub record Line : Type 0 where
  pub ch0 : ℤ
  pub ch1 : ℤ
  pub wo : ℤ

-- The loop of adc_recorder_uio from i on, for n lines; `cma_ptr` points to 16-bit words.
unfoldable pub uio_lines : Ram → ℕ → ℕ → List Line
uio_lines ram i zero = []
uio_lines ram i (suc n) =
    record {
      ch0 = signed 16 (half_at ram (2 * (2 * i + 0)));
      ch1 = signed 16 (half_at ram (2 * (2 * i + 1)));
      wo = signed 32 (word_at ram (2 * (2 * i)));
    }
    ∷ uio_lines ram (suc i) n

-- The loop of adc_recorder; `cma_ptr` points to bytes.
unfoldable pub recorder_lines : Ram → ℕ → ℕ → List Line
recorder_lines ram i zero = []
recorder_lines ram i (suc n) =
    record {
      ch0 = signed 16 (half_at ram (2 * i + 0));
      ch1 = signed 16 (half_at ram (2 * i + 2));
      wo = signed 32 (word_at ram i);
    }
    ∷ recorder_lines ram (suc i) n

-- The loop of adc_recorder_old; `mem_ptr` points to bytes.
unfoldable pub old_lines : Ram → ℕ → ℕ → List Line
old_lines ram i zero = []
old_lines ram i (suc n) =
    record {
      ch0 = signed 16 (half_at ram (4 * i + 0));
      ch1 = signed 16 (half_at ram (4 * i + 2));
      wo = signed 32 (word_at ram i);
    }
    ∷ old_lines ram (suc i) n

-- What counter_test prints of a word: its channels, the word, its halves by `&` and `>>`, and the
-- word through `cma_ptr2`.
pub record CounterLine : Type 0 where
  pub line : Line
  pub low : ℤ
  pub high : ℤ
  pub wo2 : ℤ

unfoldable pub counter_lines : Ram → ℕ → ℕ → List CounterLine
counter_lines ram i zero = []
counter_lines ram i (suc n) =
    let wo = word_at ram (2 * (2 * i)) in
    record {
      line = record {
        ch0 = signed 16 (half_at ram (2 * (2 * i + 0)));
        ch1 = signed 16 (half_at ram (2 * (2 * i + 1)));
        wo = signed 32 wo;
      };
      low = signed 16 (wo % 2 ^ 16);
      high = signed 16 (wo / 2 ^ 16);
      wo2 = signed 32 (word_at ram (4 * i));
    }
    ∷ counter_lines ram (suc i) n

-- The loop of adc-recorder.c; `ram` points to 16-bit words.
unfoldable pub mem_lines : Ram → ℕ → ℕ → List (ℤ × ℤ)
mem_lines ram i zero = []
mem_lines ram i (suc n) =
    (signed 16 (half_at ram (2 * (2 * i + 0))), signed 16 (half_at ram (2 * (2 * i + 1))))
    ∷ mem_lines ram (suc i) n
