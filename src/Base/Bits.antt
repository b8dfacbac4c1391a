-- ===== src/Base/Bits.antt =====
-- `&`, `|` and `^` bit by bit, at every width. The libraries have no laws of them at variables.
use Prim.Native.Nat.{
  ℕ, zero, suc, ◌+◌, ◌-◌, ◌*◌, ◌/◌, ◌%◌, ◌^◌, ◌≤◌, ◌<◌, min, max, bit_and, bit_or, bit_xor, digits,
  bitwise, bit_and-bitwise, bit_or-bitwise, bit_xor-bitwise, differ,
}
use mathlib.Core.Path.{◌≡◌, refl, ap, ◌∙◌}
use mathlib.Core.Bool.{Bool, true, ◌&&◌}
use rp_ecosystem.Base.Tests.{◌==◌}
use native.Mathlib.Nat.{pow-suc, one-le-pow}
use native.Mathlib.Omega.{arith}

module _ (tail : ℕ → ℕ) (op : ℕ → ℕ → ℕ) where
  -- Fuel beyond the left number adds no digit.
  spare_fuel : (a b k l : ℕ) → a ≤ k → a ≤ l → digits tail op k a b ≡ digits tail op l a b
  spare_fuel zero b zero zero hk hl = refl
  spare_fuel zero b zero (suc l) hk hl = refl
  spare_fuel zero b (suc k) zero hk hl = refl
  spare_fuel zero b (suc k) (suc l) hk hl = refl
  spare_fuel (suc a) b zero l hk hl = absurd (omega arith)
  spare_fuel (suc a) b (suc k) zero hk hl = absurd (omega arith)
  spare_fuel (suc a) b (suc k) (suc l) hk hl =
      rw (spare_fuel (suc a / 2) (b / 2) k l (omega arith) (omega arith))

  low_digit :
      (a b : ℕ)
      → bitwise tail op (suc a) b ≡ bitwise tail op (suc a / 2) (b / 2) * 2 + op (suc a % 2) (b % 2)
  low_digit a b =
      let half = suc a / 2 in
      omega (arith, spare_fuel half (b / 2) a half (omega arith) (omega arith))

pub bit_and_halves : (a b : ℕ) → bit_and a b ≡ bit_and (a / 2) (b / 2) * 2 + min (a % 2) (b % 2)
bit_and_halves zero b = simp bit_and-bitwise (omega arith)
bit_and_halves (suc a) b = simp bit_and-bitwise (low_digit _ min a b)

pub bit_or_halves : (a b : ℕ) → bit_or a b ≡ bit_or (a / 2) (b / 2) * 2 + max (a % 2) (b % 2)
bit_or_halves zero b = simp bit_or-bitwise (omega arith)
bit_or_halves (suc a) b = simp bit_or-bitwise (low_digit _ max a b)

differ_digits : (x y : ℕ) → x < 2 → y < 2 → differ x y < 2
differ_digits zero y hx hy = hy
differ_digits (suc zero) zero hx hy = omega arith
differ_digits (suc zero) (suc y) hx hy = omega arith
differ_digits (suc (suc x)) y hx hy = absurd (omega arith)

pub bit_xor_halves : (a b : ℕ) → bit_xor a b ≡ bit_xor (a / 2) (b / 2) * 2 + differ (a % 2) (b % 2)
bit_xor_halves zero b = simp bit_xor-bitwise (omega arith)
bit_xor_halves (suc a) b = simp bit_xor-bitwise (low_digit _ differ a b)

-- Bit k of a number.
abbrev pub bit : ℕ → ℕ → ℕ
bit x zero = x % 2
bit x (suc k) = bit (x / 2) k

pub bit-bit_and : (k a b : ℕ) → bit (bit_and a b) k ≡ min (bit a k) (bit b k)
bit-bit_and zero a b = omega (arith, bit_and_halves a b)
bit-bit_and (suc k) a b =
    ap (λ t. bit t k) (omega (arith, bit_and_halves a b)) ∙ bit-bit_and k (a / 2) (b / 2)

pub bit-bit_or : (k a b : ℕ) → bit (bit_or a b) k ≡ max (bit a k) (bit b k)
bit-bit_or zero a b = omega (arith, bit_or_halves a b)
bit-bit_or (suc k) a b =
    ap (λ t. bit t k) (omega (arith, bit_or_halves a b)) ∙ bit-bit_or k (a / 2) (b / 2)

bit_and_zero_fuel : (n a : ℕ) → a ≤ n → bit_and a 0 ≡ 0
bit_and_zero_fuel n zero h = refl
bit_and_zero_fuel zero (suc a) h = absurd (omega arith)
bit_and_zero_fuel (suc n) (suc a) h =
    omega (arith, bit_and_halves (suc a) 0, bit_and_zero_fuel n (suc a / 2) (omega arith))

pub bit_and-zero : (a : ℕ) → bit_and a 0 ≡ 0
bit_and-zero a = bit_and_zero_fuel a a (omega arith)

bit_or_zero_fuel : (n a : ℕ) → a ≤ n → bit_or a 0 ≡ a
bit_or_zero_fuel n zero h = refl
bit_or_zero_fuel zero (suc a) h = absurd (omega arith)
bit_or_zero_fuel (suc n) (suc a) h =
    omega (arith, bit_or_halves (suc a) 0, bit_or_zero_fuel n (suc a / 2) (omega arith))

pub bit_or-zero : (a : ℕ) → bit_or a 0 ≡ a
bit_or-zero a = bit_or_zero_fuel a a (omega arith)

-- The result of `^` on k-bit numbers has k bits.
pub bit_xor-lt : (k a b : ℕ) → a < 2 ^ k → b < 2 ^ k → bit_xor a b < 2 ^ k
bit_xor-lt zero zero zero ha hb = omega arith
bit_xor-lt zero zero (suc b) ha hb = absurd (omega arith)
bit_xor-lt zero (suc a) b ha hb = absurd (omega arith)
bit_xor-lt (suc k) a b ha hb = omega (
  arith,
  pow-suc 2 k,
  bit_xor_halves a b,
  differ_digits (a % 2) (b % 2) (omega arith) (omega arith),
  bit_xor-lt k (a / 2) (b / 2) (omega (arith, pow-suc 2 k)) (omega (arith, pow-suc 2 k)),
)

bit_and-fields : (k q r : ℕ) → r < 2 ^ k → bit_and (q * 2 ^ k + r) (2 ^ k - 1) ≡ r
bit_and-fields zero q r h = omega (arith, bit_and-zero (q * 1 + r))
bit_and-fields (suc k) q r h =
    let dbl : q * 2 ^ suc k ≡ 2 * (q * 2 ^ k) =
      omega (arith, ap (λ (t : ℕ). q * t) (pow-suc 2 k)) in
    let left : (q * 2 ^ suc k + r) / 2 ≡ q * 2 ^ k + r / 2 = omega arith in
    let right : (2 ^ suc k - 1) / 2 ≡ 2 ^ k - 1 = omega (arith, pow-suc 2 k) in
    let rest : bit_and ((q * 2 ^ suc k + r) / 2) ((2 ^ suc k - 1) / 2) ≡ r / 2 =
      rw (left, right) (bit_and-fields k q (r / 2) (omega (arith, pow-suc 2 k))) in
    omega (arith, bit_and_halves (q * 2 ^ suc k + r) (2 ^ suc k - 1), pow-suc 2 k)

-- A mask of w ones is the remainder by 2 ^ w.
pub bit_and_mask : (w a : ℕ) → bit_and a (2 ^ w - 1) ≡ a % 2 ^ w
bit_and_mask w a =
    ground (arith, one-le-pow w 2 (omega arith), bit_and-fields w (a / 2 ^ w) (a % 2 ^ w))

-- `(q << k) | r` is a sum when `r` fits k bits.
pub bit_or-fields : (k q r : ℕ) → r < 2 ^ k → bit_or (q * 2 ^ k) r ≡ q * 2 ^ k + r
bit_or-fields zero q r h = let e : r ≡ 0 = omega arith in rw e (omega (arith, bit_or-zero (q * 1)))
bit_or-fields (suc k) q r h =
    let dbl : q * 2 ^ suc k ≡ 2 * (q * 2 ^ k) =
      omega (arith, ap (λ (t : ℕ). q * t) (pow-suc 2 k)) in
    let half : q * 2 ^ suc k / 2 ≡ q * 2 ^ k = omega arith in
    let rest : bit_or (q * 2 ^ suc k / 2) (r / 2) ≡ q * 2 ^ k + r / 2 =
      rw half (bit_or-fields k q (r / 2) (omega (arith, pow-suc 2 k))) in
    omega (arith, bit_or_halves (q * 2 ^ suc k) r)

pub bit-lt : (k x : ℕ) → bit x k < 2
bit-lt zero x = omega arith
bit-lt (suc k) x = bit-lt k (x / 2)

-- Over a small range, check every value by evaluation.
unfoldable pub all_below : ℕ → (ℕ → Bool) → Bool
all_below zero p = true
all_below (suc n) p = p n && all_below n p

pub all_below-lt : (n : ℕ) (p : ℕ → Bool) (x : ℕ) → all_below n p ≡ true → x < n → p x ≡ true
unfolding all_below
all_below-lt zero p x h l = absurd (omega arith)
all_below-lt (suc n) p x h l = ground (arith, all_below-lt n p x)

-- A function of one bit at each place below `n` is checked at both values of the bit.
pub bit_table :
    (n : ℕ) (f g : ℕ → ℕ → ℕ) (k v : ℕ)
    → all_below n (λ i. f i 0 == g i 0 && f i 1 == g i 1) ≡ true
    → k < n
    → f k (bit v k) ≡ g k (bit v k)
bit_table n f g k v h l =
    let t = all_below-lt n (λ i. f i 0 == g i 0 && f i 1 == g i 1) k h l in
    go (bit v k) (bit-lt k v) t
  where
    go : (b : ℕ) → b < 2 → (f k 0 == g k 0 && f k 1 == g k 1) ≡ true → f k b ≡ g k b
    go zero q e = ground arith
    go (suc zero) q e = ground arith
    go (suc (suc b)) q e = absurd (omega arith)

pub pow_double : (k q : ℕ) → q * 2 ^ suc k ≡ 2 * (q * 2 ^ k)
pow_double k q = omega (arith, ap (λ (t : ℕ). q * t) (pow-suc 2 k))

-- `(a << k) & (b << k)` is `(a & b) << k`.
pub bit_and_shift : (k a b : ℕ) → bit_and (a * 2 ^ k) (b * 2 ^ k) ≡ bit_and a b * 2 ^ k
bit_and_shift zero a b =
    let x : a * 1 ≡ a = omega arith in let y : b * 1 ≡ b = omega arith in rw (x, y) (omega arith)
bit_and_shift (suc k) a b =
    let x = a * 2 ^ suc k in
    let y = b * 2 ^ suc k in
    let dx = pow_double k a in
    let dy = pow_double k b in
    let hx : x / 2 ≡ a * 2 ^ k = omega (arith, dx) in
    let hy : y / 2 ≡ b * 2 ^ k = omega (arith, dy) in
    let rest : bit_and (x / 2) (y / 2) ≡ bit_and a b * 2 ^ k = rw (hx, hy) (bit_and_shift k a b) in
    omega (arith, bit_and_halves x y, rest, dx, dy, pow_double k (bit_and a b))

-- `&` with a mask whose low k bits are 0 drops the low k bits.
pub bit_and_high :
    (k q r m : ℕ) → r < 2 ^ k → bit_and (q * 2 ^ k + r) (m * 2 ^ k) ≡ bit_and q m * 2 ^ k
bit_and_high zero q r m h =
    let x : q * 1 + r ≡ q = omega arith in
    let y : m * 1 ≡ m = omega arith in rw (x, y) (omega arith)
bit_and_high (suc k) q r m h =
    let x = q * 2 ^ suc k + r in
    let y = m * 2 ^ suc k in
    let dx = pow_double k q in
    let dy = pow_double k m in
    let hx : x / 2 ≡ q * 2 ^ k + r / 2 = omega (arith, dx) in
    let hy : y / 2 ≡ m * 2 ^ k = omega (arith, dy) in
    let rest : bit_and (x / 2) (y / 2) ≡ bit_and q m * 2 ^ k =
      rw (hx, hy) (bit_and_high k q (r / 2) m (omega (arith, pow-suc 2 k))) in
    omega (arith, bit_and_halves x y, rest, dx, dy, pow_double k (bit_and q m))
