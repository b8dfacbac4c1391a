-- ===== src/Xadc.antt =====
-- projects/xadc_test: the access to memory of xadc_test.c and the readings of xadc_uio.c.
use rp_ecosystem.Base.{
  ℕ, zero, suc, ◌+◌, ◌-◌, ◌*◌, ◌/◌, ◌%◌, ◌^◌, ◌<◌, ◌≤◌, ◌≡◌, ◌≢◌, refl, ap, ◌∙◌, arith, bit_and,
  Option, none, some, ◌⊎◌, inl, inr, true, false, ◌==◌, if◌then◌else◌,
}
use rp_ecosystem.Base.Int.{ℤ, pos, negsuc, shr_ℤ, div_ℤ, sub_ℕ, signed}
use rp_ecosystem.Base.Bits.{bit_and_mask, bit_and_high}
pub mod Report

-- Physical memory by bytes.
abbrev pub Memory : Type 0
Memory = ℕ → ℕ

abbrev pub map_size : ℕ
map_size = 4096

-- `target & ~MAP_MASK`, the page that is mapped, and `map_base + (target & MAP_MASK)`, as the address
-- that it stands for; an address has 32 bits.
unfoldable pub page_of : ℕ → ℕ
page_of target = bit_and target (2 ^ 32 - map_size)

unfoldable pub virt_addr : ℕ → ℕ
unfolding page_of
virt_addr target = page_of target + bit_and target (map_size - 1)

-- The number of bytes of an access type; none ends the program.
unfoldable pub width : ℕ → Option ℕ
width access_type =
    if access_type == b'b'
    then some 1
    else if access_type == b'h'
    then some 2
    else if access_type == b'w'
    then some 4
    else none

-- A little-endian word of n bytes, read and written.
unfoldable pub read_at : Memory → ℕ → ℕ → ℕ
read_at m a zero = 0
read_at m a (suc n) = let rest = read_at m (a + 1) n in m a + 2 ^ 8 * rest

unfoldable pub write_at : Memory → ℕ → ℕ → ℕ → Memory
write_at m a zero v = m
write_at m a (suc n) v =
    let rest = write_at m (a + 1) n (v / 2 ^ 8) in λ b. if b == a then v % 2 ^ 8 else rest b

-- At an address: what `main` reads before, the memory after its write, and what it reads back.
unfoldable pub access_at : Memory → ℕ → ℕ → ℕ → ℕ × Memory × ℕ
unfolding read_at write_at
access_at m a n writeval = let m' = write_at m a n writeval in (read_at m a n, m', read_at m' a n)

-- `main` with an access type and data.
unfoldable pub access : Memory → ℕ → ℕ → ℕ → Option (ℕ × Memory × ℕ)
unfolding virt_addr width access_at
access m target access_type writeval = elim (width access_type) [
  | none ↦ none
  | some n ↦ some (access_at m (virt_addr target) n writeval)
]

-- A reading of xadc_uio.c: `(int16_t) dev_read(...)`, shifted right by 4.
unfoldable pub counts : ℕ → ℤ
unfolding signed shr_ℤ
counts word = shr_ℤ (signed 16 (word % 2 ^ 16)) 4

-- The factor `((value>>4))/4096` of the line for VCCINT.
unfoldable pub vccint_ratio : ℕ → ℤ
unfolding counts div_ℤ
vccint_ratio word = div_ℤ (counts word) (pos 4096)

-- The page and the offset make up the address.
pub virt_addr-target : (target : ℕ) → target < 2 ^ 32 → virt_addr target ≡ target
unfolding virt_addr page_of
virt_addr-target target h =
    let q = target / 2 ^ 12 in
    let parts : q * 2 ^ 12 + target % 2 ^ 12 ≡ target = omega arith in
    let high : bit_and (q * 2 ^ 12 + target % 2 ^ 12) ((2 ^ 20 - 1) * 2 ^ 12)
        ≡ bit_and q (2 ^ 20 - 1) * 2 ^ 12 =
      bit_and_high 12 q (target % 2 ^ 12) (2 ^ 20 - 1) (omega arith) in
    let high' : bit_and target (2 ^ 32 - 4096) ≡ bit_and q (2 ^ 20 - 1) * 2 ^ 12 =
      rw parts at high in
    omega (arith, high', bit_and_mask 20 q, bit_and_mask 12 target)

-- What `xadc_uio` prints as VCCINT is 0, whatever the converter reads: the division is one of integers
-- and its dividend has 12 bits.
pub vccint_ratio-zero : (word : ℕ) → vccint_ratio word ≡ pos 0
unfolding vccint_ratio counts signed shr_ℤ div_ℤ
vccint_ratio-zero word = ground arith

-- A byte in front of a word is no part of it.
read_at_behind :
    (m : Memory) (a c n x : ℕ)
    → a < c
    → read_at (λ b. if b == a then x else m b) c n ≡ read_at m c n
unfolding read_at
read_at_behind m a c zero x h = refl
read_at_behind m a c (suc n) x h =
    let ih = read_at_behind m a (c + 1) n x (omega arith) in
    let ne : (c == a) ≡ false = ground arith in rw (ne, ih) refl

-- The lowest n bytes of a number.
abbrev low_bytes : ℕ → ℕ → ℕ
low_bytes zero v = 0
low_bytes (suc n) v = v % 2 ^ 8 + 2 ^ 8 * low_bytes n (v / 2 ^ 8)

read_at-write_at : (m : Memory) (a n v : ℕ) → read_at (write_at m a n v) a n ≡ low_bytes n v
unfolding read_at write_at
read_at-write_at m a zero v = refl
read_at-write_at m a (suc n) v =
    let rest = write_at m (a + 1) n (v / 2 ^ 8) in
    let same : (a == a) ≡ true = ground arith in
    rw
      (
        same,
        read_at_behind rest a (a + 1) n (v % 2 ^ 8) (omega arith),
        read_at-write_at m (a + 1) n (v / 2 ^ 8),
      )
      refl

write_at_outside : (m : Memory) (a n v b : ℕ) → (b < a) ⊎ (a + n ≤ b) → write_at m a n v b ≡ m b
unfolding write_at
write_at_outside m a zero v b h = refl
write_at_outside m a (suc n) v b h =
    let ne : (b == a) ≡ false = ground arith in
    rw ne (write_at_outside m (a + 1) n (v / 2 ^ 8) b (ground arith))

width_cases : (t n : ℕ) → width t ≡ some n → (n ≡ 1) ⊎ (n ≡ 2) ⊎ (n ≡ 4)
unfolding width
width_cases t n h = ground arith

low_bytes-width : (t n v : ℕ) → width t ≡ some n → low_bytes n v ≡ v % 2 ^ (8 * n)
low_bytes-width t n v h = elim (width_cases t n h) [
  | inl one ↦ rw one (omega arith)
  | inr more ↦ elim more [ inl two ↦ rw two (omega arith) | inr four ↦ rw four (omega arith) ]
]

-- With an access type of n bytes, and a target of 32 bits, the program reads back what it was to
-- write, modulo 2 ^ (8 * n), and every byte outside the n bytes from the target on keeps its value.
access-write :
    (m : Memory) (target t v n b : ℕ)
    → target < 2 ^ 32
    → width t ≡ some n
    → (b < target) ⊎ (target + n ≤ b)
    → (access m target t v ≡ some (read_at m target n, write_at m target n v, v % 2 ^ (8 * n)))
      × (write_at m target n v b ≡ m b)
unfolding access access_at
access-write m target t v n b h w o =
    let a = virt_addr-target target h in
    let back = read_at-write_at m target n v ∙ low_bytes-width t n v w in
    (
      ap (λ o. elim o [ none ↦ none | some k ↦ some (access_at m (virt_addr target) k v) ]) w
          ∙ ap (λ c. some (access_at m c n v)) a
          ∙ ap (λ q. some (read_at m target n, write_at m target n v, q)) back,
      write_at_outside m target n v b o,
    )
