-- ===== src/Recorder/Lines.antt =====
-- The printed lines of a memory in which the pairs of samples lie one after the other.
use rp_ecosystem.Base.{
  ℕ, zero, suc, ◌+◌, ◌*◌, ◌/◌, ◌%◌, ◌^◌, ◌<◌, List, [], ◌∷◌, ◌==◌, if◌then◌else◌, ◌≡◌, refl, arith,
}
use rp_ecosystem.Base.Int.{ℤ, signed}
use rp_ecosystem.Recorder.Memory.{
  Ram, half_at, Line, uio_lines, recorder_lines, CounterLine, counter_lines,
}

-- A recording: the i-th sample of each of the two channels, 16 bits each.
abbrev pub Recording : Type 0
Recording = ℕ → ℕ × ℕ

abbrev pub IsRecording : Recording → Type 0
IsRecording p = (i : ℕ) → ((p i).0 < 2 ^ 16) × ((p i).1 < 2 ^ 16)

-- The bytes of the i-th pair at 4 * i, the first channel's first, the lower byte first.
abbrev pub stored : Recording → Ram
stored p a =
    let pair = p (a / 4) in
    if a % 4 == 0
    then pair.0 % 256
    else if a % 4 == 1
    then pair.0 / 256
    else if a % 4 == 2
    then pair.1 % 256
    else pair.1 / 256

pub first_half : (p : Recording) (i : ℕ) → half_at (stored p) (4 * i) ≡ (p i).0
first_half p i =
    let q0 : (4 * i) / 4 ≡ i = omega arith in
    let q1 : (4 * i + 1) / 4 ≡ i = omega arith in
    let r0 : (4 * i) % 4 ≡ 0 = omega arith in
    let r1 : (4 * i + 1) % 4 ≡ 1 = omega arith in rw (q0, q1, r0, r1) (omega arith)

pub second_half : (p : Recording) (i : ℕ) → half_at (stored p) (4 * i + 2) ≡ (p i).1
second_half p i =
    let q0 : (4 * i + 2) / 4 ≡ i = omega arith in
    let q1 : (4 * i + 2 + 1) / 4 ≡ i = omega arith in
    let r0 : (4 * i + 2) % 4 ≡ 2 = omega arith in
    let r1 : (4 * i + 2 + 1) % 4 ≡ 3 = omega arith in rw (q0, q1, r0, r1) (omega arith)

abbrev pub line_of : ℕ × ℕ → Line
line_of c = record { ch0 = signed 16 c.0; ch1 = signed 16 c.1; wo = signed 32 (c.0 + 2 ^ 16 * c.1) }

-- The lines of the pairs from i on.
abbrev pub lines_of : Recording → ℕ → ℕ → List Line
lines_of p i zero = []
lines_of p i (suc n) = line_of (p i) ∷ lines_of p (suc i) n

-- adc_recorder_uio prints of a stored recording, from any place and for any number of lines, the two
-- channels of each pair in its order, as signed 16-bit numbers, with the word of both.
uio_lines-stored : (p : Recording) (i n : ℕ) → uio_lines (stored p) i n ≡ lines_of p i n
unfolding uio_lines
uio_lines-stored p i zero = refl
uio_lines-stored p i (suc n) =
    let a0 : 2 * (2 * i + 0) ≡ 4 * i = omega arith in
    let a1 : 2 * (2 * i + 1) ≡ 4 * i + 2 = omega arith in
    let a2 : 2 * (2 * i) ≡ 4 * i = omega arith in
    let h0 = first_half p i in
    let h1 = second_half p i in rw (a0, a1, a2, h0, h1, uio_lines-stored p (suc i) n) refl

abbrev pub counter_line_of : ℕ × ℕ → CounterLine
counter_line_of c = record {
  line = line_of c;
  low = signed 16 c.0;
  high = signed 16 c.1;
  wo2 = signed 32 (c.0 + 2 ^ 16 * c.1);
}

abbrev pub counter_lines_of : Recording → ℕ → ℕ → List CounterLine
counter_lines_of p i zero = []
counter_lines_of p i (suc n) = counter_line_of (p i) ∷ counter_lines_of p (suc i) n

-- The three readings that counter_test prints of each pair of 16-bit samples agree: the two halves
-- through the 16-bit pointer, the halves of the word by `&` and `>>`, and the two words.
pub counter_lines-stored :
    (p : Recording) (i n : ℕ)
    → IsRecording p
    → counter_lines (stored p) i n ≡ counter_lines_of p i n
unfolding counter_lines
counter_lines-stored p i zero h = refl
counter_lines-stored p i (suc n) h =
    let a0 : 2 * (2 * i + 0) ≡ 4 * i = omega arith in
    let a1 : 2 * (2 * i + 1) ≡ 4 * i + 2 = omega arith in
    let a2 : 2 * (2 * i) ≡ 4 * i = omega arith in
    let h0 = first_half p i in
    let h1 = second_half p i in
    let b = (h i).0 in
    let lo : ((p i).0 + 65536 * (p i).1) % 65536 ≡ (p i).0 = omega arith in
    let hi : ((p i).0 + 65536 * (p i).1) / 65536 ≡ (p i).1 = omega arith in
    rw (a0, a1, a2, h0, h1, lo, hi, counter_lines-stored p (suc i) n h) refl

abbrev first_channel : List Line → List ℤ
first_channel [] = []
first_channel (l ∷ ls) = l.ch0 ∷ first_channel ls

abbrev second_channel : List Line → List ℤ
second_channel [] = []
second_channel (l ∷ ls) = l.ch1 ∷ second_channel ls

-- adc_recorder prints, of any memory, the second number of each line once more as the first of the
-- next line: its lines advance by one 16-bit sample, not by a pair.
pub recorder_lines_overlap :
    (ram : Ram) (i n : ℕ)
    → first_channel (recorder_lines ram (suc i) n) ≡ second_channel (recorder_lines ram i n)
unfolding recorder_lines
recorder_lines_overlap ram i zero = refl
recorder_lines_overlap ram i (suc n) =
    let a : 2 * suc i + 0 ≡ 2 * i + 2 = omega arith in
    rw (a, recorder_lines_overlap ram (suc i) n) refl
