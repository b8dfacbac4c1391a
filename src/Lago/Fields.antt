-- ===== src/Lago/Fields.antt =====
-- What the words of the ring say, against the fields that they are made of.
use rp_ecosystem.Base.{
  ℕ, ◌+◌, ◌*◌, ◌/◌, ◌%◌, ◌^◌, ◌<◌, Bool, ◌∷◌, ◌==◌, if◌then◌else◌, ◌≡◌, arith, length, get_or,
  get_or-set_self, get_or-set_ne,
}
use rp_ecosystem.Base.Bits.{bit_and_mask}
use rp_ecosystem.Base.Int.{◌+ℤ◌, ◌*ℤ◌, shr_ℤ, signed, to_word}
use rp_ecosystem.Zynq.Device.{Board}
use rp_ecosystem.Lago.Acquisition.{Acq, sample, trigger, frequency, rate_1, rate_2, unknown_word}
use rp_ecosystem.Lago.Words.{extend, decode, sample_word, trigger_word, coded_word}

extend-signed : (x : ℕ) → x < 2 ^ 14 → extend (signed 16 x) ≡ signed 14 x
unfolding extend shr_ℤ signed to_word ◌+ℤ◌ ◌*ℤ◌
extend-signed x h = ground arith

-- A word of two samples of 14 bits, the first in the low half, is printed as the two signed values
-- that those bits stand for.
pub decode-sample :
    (b : Board) (o : Bool) (x y : ℕ) (a : Acq)
    → x < 2 ^ 14
    → y < 2 ^ 14
    → (decode b o (y * 2 ^ 16 + x) a).lines ≡ sample (signed 14 x) (signed 14 y) ∷ a.lines
unfolding decode sample_word
decode-sample b o x y a hx hy =
    let wo = y * 2 ^ 16 + x in
    let low : wo / 1 % 2 ^ 16 ≡ x = omega arith in
    let high : wo / 2 ^ 16 % 2 ^ 16 ≡ y = omega arith in
    let top : wo / 2 ^ 30 ≡ 0 = omega arith in
    rw (top, low, high) (ground (arith, extend-signed x hx, extend-signed y hy))

-- A trigger word with a kind below 8 and a count below 2 ^ 27 adds one to the counter of its kind,
-- modulo 2 ^ 32, and to no other of the eight, and prints its two fields.
pub decode-trigger :
    (b : Board) (o : Bool) (t v k : ℕ) (a : Acq)
    → t < 8
    → v < 2 ^ 27
    → length a.r ≡ 8
    → let a' = decode b o (2 ^ 30 + t * 2 ^ 27 + v) a in
      (a'.lines ≡ trigger t v ∷ a.lines)
      × (get_or a'.r k 0 ≡ (if k == t then (get_or a.r k 0 + 1) % 2 ^ 32 else get_or a.r k 0))
unfolding decode trigger_word
decode-trigger b o t v k a ht hv hl =
    let wo = 2 ^ 30 + t * 2 ^ 27 + v in
    ground (
      arith,
      bit_and_mask 3 (wo / 2 ^ 27),
      bit_and_mask 27 wo,
      get_or-set_self a.r t ((get_or a.r t 0 + 1) % 2 ^ 32) 0,
      get_or-set_ne a.r t k ((get_or a.r t 0 + 1) % 2 ^ 32) 0,
    )

-- The words of the rates and of the frequency, with a value below 2 ^ 24, carry it to its variable
-- and its line; the code 31 is reported as unknown.
pub decode-coded :
    (b : Board) (o : Bool) (v : ℕ) (a : Acq)
    → v < 2 ^ 24
    → ((decode b o (0x18 * 2 ^ 27 + v) a).lines ≡ frequency v ∷ a.lines)
      × ((decode b o (0x1D * 2 ^ 27 + v) a).r1 ≡ v)
      × ((decode b o (0x1D * 2 ^ 27 + v) a).lines ≡ rate_1 v ∷ a.lines)
      × ((decode b o (0x1E * 2 ^ 27 + v) a).r2 ≡ v)
      × ((decode b o (0x1E * 2 ^ 27 + v) a).lines ≡ rate_2 v ∷ a.lines)
      × ((decode b o (0x1F * 2 ^ 27 + v) a).lines ≡ unknown_word 31 ∷ a.lines)
unfolding decode coded_word
decode-coded b o v a h = ground (
  arith,
  bit_and_mask 27 (0x18 * 2 ^ 27 + v),
  bit_and_mask 24 (0x1D * 2 ^ 27 + v),
  bit_and_mask 24 (0x1E * 2 ^ 27 + v),
)
