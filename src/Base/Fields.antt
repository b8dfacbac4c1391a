-- ===== src/Base/Fields.antt =====
-- `&` and `|` on a word taken apart into a high and a low field.
use Prim.Native.Nat.{ℕ, zero, suc, ◌+◌, ◌*◌, ◌/◌, ◌^◌, ◌<◌, bit_and, bit_or, bit_and-bitwise}
use mathlib.Core.Path.{◌≡◌, refl}
use native.Mathlib.Nat.{pow-suc}
use native.Mathlib.Omega.{arith}
use rp_ecosystem.Base.Bits.{bit_and_halves, bit_or_halves, bit_or-zero, pow_double}

-- The two fields do not mix.
pub bit_and_split :
    (k q r m n : ℕ)
    → r < 2 ^ k
    → n < 2 ^ k
    → bit_and (q * 2 ^ k + r) (m * 2 ^ k + n) ≡ bit_and q m * 2 ^ k + bit_and r n
bit_and_split zero q r m n h j =
    let x : q * 1 + r ≡ q = omega arith in
    let y : m * 1 + n ≡ m = omega arith in
    let a : r ≡ 0 = omega arith in
    let b : n ≡ 0 = omega arith in
    let z : bit_and r n ≡ 0 = rw (a, b) refl in rw (x, y) (omega (arith, z))
bit_and_split (suc k) q r m n h j =
    let x = q * 2 ^ suc k + r in
    let y = m * 2 ^ suc k + n in
    let dx = pow_double k q in
    let dy = pow_double k m in
    let hx : x / 2 ≡ q * 2 ^ k + r / 2 = omega (arith, dx) in
    let hy : y / 2 ≡ m * 2 ^ k + n / 2 = omega (arith, dy) in
    let p = pow-suc 2 k in
    let rest : bit_and (x / 2) (y / 2) ≡ bit_and q m * 2 ^ k + bit_and (r / 2) (n / 2) =
      rw (hx, hy) (bit_and_split k q (r / 2) m (n / 2) (omega (arith, p)) (omega (arith, p))) in
    omega (arith, bit_and_halves x y, bit_and_halves r n, rest, dx, dy, pow_double k (bit_and q m))

pub bit_or_split :
    (k q r n : ℕ) → r < 2 ^ k → n < 2 ^ k → bit_or (q * 2 ^ k + r) n ≡ q * 2 ^ k + bit_or r n
bit_or_split zero q r n h j =
    let x : q * 1 + r ≡ q = omega arith in
    let a : r ≡ 0 = omega arith in
    let b : n ≡ 0 = omega arith in
    let z : bit_or r n ≡ 0 = rw (a, b) refl in
    let w : bit_or q n ≡ q = rw b (bit_or-zero q) in rw x (omega (arith, z, w))
bit_or_split (suc k) q r n h j =
    let x = q * 2 ^ suc k + r in
    let dx = pow_double k q in
    let hx : x / 2 ≡ q * 2 ^ k + r / 2 = omega (arith, dx) in
    let p = pow-suc 2 k in
    let rest : bit_or (x / 2) (n / 2) ≡ q * 2 ^ k + bit_or (r / 2) (n / 2) =
      rw hx (bit_or_split k q (r / 2) (n / 2) (omega (arith, p)) (omega (arith, p))) in
    omega (arith, bit_or_halves x n, bit_or_halves r n, rest, dx)

pub bit_and-lt : (k a b : ℕ) → a < 2 ^ k → bit_and a b < 2 ^ k
bit_and-lt zero a b h = let e : a ≡ 0 = omega arith in rw e (simp bit_and-bitwise (omega arith))
bit_and-lt (suc k) a b h =
    let p = pow-suc 2 k in
    omega (arith, p, bit_and_halves a b, bit_and-lt k (a / 2) (b / 2) (omega (arith, p)))

pub bit_or-lt : (k a b : ℕ) → a < 2 ^ k → b < 2 ^ k → bit_or a b < 2 ^ k
bit_or-lt zero a b h j =
    let e : a ≡ 0 = omega arith in let f : b ≡ 0 = omega arith in rw (e, f) (omega arith)
bit_or-lt (suc k) a b h j =
    let p = pow-suc 2 k in
    omega (
      arith,
      p,
      bit_or_halves a b,
      bit_or-lt k (a / 2) (b / 2) (omega (arith, p)) (omega (arith, p)),
    )
