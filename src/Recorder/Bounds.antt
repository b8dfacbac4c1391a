-- ===== src/Recorder/Bounds.antt =====
-- Which bytes of the buffer the printing loops read.
use rp_ecosystem.Base.{ℕ, zero, suc, ◌+◌, ◌*◌, ◌<◌, ◌≤◌, ◌≡◌, refl, arith}
use rp_ecosystem.Recorder.Memory.{
  Ram, half_at, word_at, uio_lines, recorder_lines, old_lines, counter_lines, mem_lines,
}
use rp_ecosystem.Recorder.Programs.{uio_mem_lines, old_mem_lines}

-- Two memories that agree below an address.
abbrev pub Agree : ℕ → Ram → Ram → Type 0
Agree size m m' = (a : ℕ) → a < size → m a ≡ m' a

half_at-Agree :
    (size a : ℕ) (m m' : Ram) → Agree size m m' → a + 1 < size → half_at m a ≡ half_at m' a
half_at-Agree size a m m' h l = rw (h a (omega arith), h (a + 1) l) refl

word_at-Agree :
    (size a : ℕ) (m m' : Ram) → Agree size m m' → a + 3 < size → word_at m a ≡ word_at m' a
word_at-Agree size a m m' h l =
    let p = half_at-Agree size a m m' h (omega arith) in
    let q = half_at-Agree size (a + 2) m m' h (omega arith) in omega (arith, p, q)

uio_below :
    (size i n : ℕ) (m m' : Ram)
    → Agree size m m'
    → 4 * (i + n) ≤ size
    → uio_lines m i n ≡ uio_lines m' i n
unfolding uio_lines
uio_below size i zero m m' h l = refl
uio_below size i (suc n) m m' h l =
    let a = half_at-Agree size (2 * (2 * i + 0)) m m' h (omega arith) in
    let b = half_at-Agree size (2 * (2 * i + 1)) m m' h (omega arith) in
    let c = word_at-Agree size (2 * (2 * i)) m m' h (omega arith) in
    let ih = uio_below size (suc i) n m m' h (omega arith) in rw (a, b, c, ih) refl

recorder_below :
    (size i n : ℕ) (m m' : Ram)
    → Agree size m m'
    → 4 * (i + n) ≤ size
    → recorder_lines m i n ≡ recorder_lines m' i n
unfolding recorder_lines
recorder_below size i zero m m' h l = refl
recorder_below size i (suc n) m m' h l =
    let a = half_at-Agree size (2 * i + 0) m m' h (omega arith) in
    let b = half_at-Agree size (2 * i + 2) m m' h (omega arith) in
    let c = word_at-Agree size (i) m m' h (omega arith) in
    let ih = recorder_below size (suc i) n m m' h (omega arith) in rw (a, b, c, ih) refl

old_below :
    (size i n : ℕ) (m m' : Ram)
    → Agree size m m'
    → 4 * (i + n) ≤ size
    → old_lines m i n ≡ old_lines m' i n
unfolding old_lines
old_below size i zero m m' h l = refl
old_below size i (suc n) m m' h l =
    let a = half_at-Agree size (4 * i + 0) m m' h (omega arith) in
    let b = half_at-Agree size (4 * i + 2) m m' h (omega arith) in
    let c = word_at-Agree size (i) m m' h (omega arith) in
    let ih = old_below size (suc i) n m m' h (omega arith) in rw (a, b, c, ih) refl

counter_below :
    (size i n : ℕ) (m m' : Ram)
    → Agree size m m'
    → 4 * (i + n) ≤ size
    → counter_lines m i n ≡ counter_lines m' i n
unfolding counter_lines
counter_below size i zero m m' h l = refl
counter_below size i (suc n) m m' h l =
    let a = half_at-Agree size (2 * (2 * i + 0)) m m' h (omega arith) in
    let b = half_at-Agree size (2 * (2 * i + 1)) m m' h (omega arith) in
    let c = word_at-Agree size (2 * (2 * i)) m m' h (omega arith) in
    let d = word_at-Agree size (4 * i) m m' h (omega arith) in
    let ih = counter_below size (suc i) n m m' h (omega arith) in rw (a, b, c, d, ih) refl

mem_below :
    (size i n : ℕ) (m m' : Ram)
    → Agree size m m'
    → 4 * (i + n) ≤ size
    → mem_lines m i n ≡ mem_lines m' i n
unfolding mem_lines
mem_below size i zero m m' h l = refl
mem_below size i (suc n) m m' h l =
    let a = half_at-Agree size (2 * (2 * i + 0)) m m' h (omega arith) in
    let b = half_at-Agree size (2 * (2 * i + 1)) m m' h (omega arith) in
    let ih = mem_below size (suc i) n m m' h (omega arith) in rw (a, b, ih) refl

uio_mem_below :
    (size i n : ℕ) (m m' : Ram)
    → Agree size m m'
    → 4 * (i + n) ≤ size
    → uio_mem_lines m i n ≡ uio_mem_lines m' i n
unfolding uio_mem_lines
uio_mem_below size i zero m m' h l = refl
uio_mem_below size i (suc n) m m' h l =
    let a = half_at-Agree size (2 * (2 * i + 0)) m m' h (omega arith) in
    let b = half_at-Agree size (2 * (2 * i + 1)) m m' h (omega arith) in
    let ih = uio_mem_below size (suc i) n m m' h (omega arith) in rw (a, b, ih) refl

old_mem_below :
    (size i n : ℕ) (m m' : Ram)
    → Agree size m m'
    → 4 * (i + n) ≤ size
    → old_mem_lines m i n ≡ old_mem_lines m' i n
unfolding old_mem_lines
old_mem_below size i zero m m' h l = refl
old_mem_below size i (suc n) m m' h l =
    let a = half_at-Agree size (4 * i + 0) m m' h (omega arith) in
    let b = half_at-Agree size (4 * i + 2) m m' h (omega arith) in
    let ih = old_mem_below size (suc i) n m m' h (omega arith) in rw (a, b, ih) refl

-- The loops of the seven recorders, run for n lines, read nothing behind the first 4 * n bytes of the
-- buffer: on two memories that agree there they print the same lines. For the 2 ^ 20 lines of the
-- recorders these are the 1024 pages of 4096 bytes that they map.
pub lines-Agree :
    (m m' : Ram) (n : ℕ)
    → Agree (4 * n) m m'
    → (uio_lines m 0 n ≡ uio_lines m' 0 n)
      × (recorder_lines m 0 n ≡ recorder_lines m' 0 n)
      × (old_lines m 0 n ≡ old_lines m' 0 n)
      × (counter_lines m 0 n ≡ counter_lines m' 0 n)
      × (mem_lines m 0 n ≡ mem_lines m' 0 n)
      × (uio_mem_lines m 0 n ≡ uio_mem_lines m' 0 n)
      × (old_mem_lines m 0 n ≡ old_mem_lines m' 0 n)
lines-Agree m m' n h =
    let l : 4 * (0 + n) ≤ 4 * n = omega arith in
    (
      uio_below (4 * n) 0 n m m' h l,
      recorder_below (4 * n) 0 n m m' h l,
      old_below (4 * n) 0 n m m' h l,
      counter_below (4 * n) 0 n m m' h l,
      mem_below (4 * n) 0 n m m' h l,
      uio_mem_below (4 * n) 0 n m m' h l,
      old_mem_below (4 * n) 0 n m m' h l,
    )
