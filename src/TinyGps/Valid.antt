-- ===== src/TinyGps/Valid.antt =====
-- The representation invariant of the decoder, and what one character leaves alone.
use rp_ecosystem.Base.{
  ℕ, ◌^◌, ◌<◌, true, ◌≡◌, ◌↔◌, arith, length, length-set, set, bit_xor, ◌==◌, if◌then◌else◌,
}
use rp_ecosystem.Base.Bits.{bit_xor-lt}
use rp_ecosystem.TinyGps.State.{Gps, term_size}
use rp_ecosystem.TinyGps.Encode.{
  commit, checksum, checksum_term, gps_term_complete, end_term, begin_sentence, add_char, counted,
  gps_encode,
}

-- `_term[_term_offset]` is inside the array, and the byte counters are bytes.
pub record IsValid (g : Gps) : Type 0 where
  pub term_length : length g.term ≡ term_size
  pub offset_in : g.term_offset < term_size
  pub parity_byte : g.parity < 2 ^ 8
  pub number_byte : g.term_number < 2 ^ 8

pub gps_term_complete-keeps :
    (clock : ℕ) (g : Gps)
    → let g' = (gps_term_complete clock g).0 in
      (g'.term ≡ g.term)
      × (g'.term_offset ≡ g.term_offset)
      × (g'.parity ≡ g.parity)
      × (g'.term_number ≡ g.term_number)
      × (g'.is_checksum_term ≡ g.is_checksum_term)
unfolding gps_term_complete checksum_term
gps_term_complete-keeps clock g = ground arith

add_char-IsValid : (c : ℕ) (g : Gps) → c < 2 ^ 8 → IsValid g → IsValid (add_char c g)
unfolding add_char
add_char-IsValid c g h v =
    ground (arith, length-set g.term g.term_offset c, bit_xor-lt 8 g.parity c)

end_term-IsValid : (clock c : ℕ) (g : Gps) → c < 2 ^ 8 → IsValid g → IsValid (end_term clock c g).0
unfolding end_term
end_term-IsValid clock c g h v =
    let closed = record g {
      parity = if c == b',' then bit_xor g.parity c else g.parity;
      term = set g.term g.term_offset 0;
    } in
    ground (
      arith,
      length-set g.term g.term_offset 0,
      bit_xor-lt 8 g.parity c,
      gps_term_complete-keeps clock closed,
    )

-- From a valid state, no byte takes the decoder out of its arrays or its bytes: the state after it
-- is valid.
pub gps_encode-IsValid :
    (clock c : ℕ) (g : Gps) → c < 2 ^ 8 → IsValid g → IsValid (gps_encode clock c g).0
unfolding gps_encode begin_sentence
gps_encode-IsValid clock c g h v =
    ground (arith, end_term-IsValid clock c (counted g) h, add_char-IsValid c (counted g) h)

-- A term completes a valid sentence exactly if it is a checksum term that holds the parity of a
-- sentence whose data are good.
pub gps_term_complete-true :
    (clock : ℕ) (g : Gps)
    → ((gps_term_complete clock g).1 ≡ true)
      ↔ ((g.is_checksum_term ≡ true) × (checksum g.term ≡ g.parity) × (g.is_gps_data_good ≡ true))
unfolding gps_term_complete checksum_term
gps_term_complete-true clock g = (ground arith, ground arith)

pub gps_term_complete-fix :
    (clock : ℕ) (g : Gps)
    → (gps_term_complete clock g).0.fix
      ≡ (if (gps_term_complete clock g).1 then commit g else g.fix)
unfolding gps_term_complete checksum_term
gps_term_complete-fix clock g = ground arith

-- The state that `gps_encode` hands to `gps_term_complete` at a terminator.
abbrev pub closing : ℕ → Gps → Gps
closing c g = record g {
  parity = if c == b',' then bit_xor g.parity c else g.parity;
  term = set g.term g.term_offset 0;
}

pub end_term-true :
    (clock c : ℕ) (g : Gps)
    → g.term_offset < term_size
    → ((end_term clock c g).1 ≡ true) ↔ (
        (g.is_checksum_term ≡ true)
        × (checksum (closing c g).term ≡ (closing c g).parity)
        × (g.is_gps_data_good ≡ true))
unfolding end_term
end_term-true clock c g h = (
  ground (arith, gps_term_complete-true clock (closing c g)),
  ground (arith, gps_term_complete-true clock (closing c g)),
)
