-- ===== src/TinyGps/Accept.antt =====
-- When a character of the stream completes a valid sentence, and what it then does to the fix.
use rp_ecosystem.Base.{
  ℕ, ◌<◌, true, ◌≡◌, ◌↔◌, arith, set, bit_xor, ◌==◌, ◌||◌, ap, ◌∙◌, if◌then◌else◌,
}
use rp_ecosystem.TinyGps.State.{Fix, Gps, term_size, gps_sentence_gprmc, gps_sentence_gpgga}
use rp_ecosystem.TinyGps.Encode.{
  commit, checksum, end_term, begin_sentence, add_char, counted, is_terminator, gps_encode,
}
use rp_ecosystem.TinyGps.Valid.{closing, end_term-true, gps_term_complete-fix}

-- With the term offset inside the array, `gps_encode` returns true exactly if the character ends a
-- checksum term whose value is the parity of the sentence, and the sentence declared its data good.
pub gps_encode-true :
    (clock c : ℕ) (g : Gps)
    → g.term_offset < term_size
    → ((gps_encode clock c g).1 ≡ true) ↔ (
        (is_terminator c ≡ true)
        × (g.is_checksum_term ≡ true)
        × (checksum (set g.term g.term_offset 0)
            ≡ (if c == b',' then bit_xor g.parity c else g.parity))
        × (g.is_gps_data_good ≡ true))
unfolding gps_encode
gps_encode-true clock c g v = (
  ground (arith, end_term-true clock c (counted g)),
  ground (arith, end_term-true clock c (counted g)),
)

-- What a GPRMC and what a GPGGA sentence publish of the values read, field by field; the other fields
-- keep what was published before. A sentence of any other type publishes only the clocks.
abbrev pub published : Gps → Fix
published g =
    let rmc = g.sentence_type == gps_sentence_gprmc in
    let gga = g.sentence_type == gps_sentence_gpgga in
    record {
      time = if rmc || gga then g.new.time else g.fix.time;
      date = if rmc then g.new.date else g.fix.date;
      latitude = if rmc || gga then g.new.latitude else g.fix.latitude;
      longitude = if rmc || gga then g.new.longitude else g.fix.longitude;
      altitude = if gga then g.new.altitude else g.fix.altitude;
      speed = if rmc then g.new.speed else g.fix.speed;
      course = if rmc then g.new.course else g.fix.course;
      hdop = if gga then g.new.hdop else g.fix.hdop;
      numsats = if gga then g.new.numsats else g.fix.numsats;
      time_fix = g.new.time_fix;
      position_fix = g.new.position_fix;
    }

commit-published : (g : Gps) → commit g ≡ published g
unfolding commit
commit-published g = ground arith

gps_encode-commit :
    (clock c : ℕ) (g : Gps)
    → (gps_encode clock c g).0.fix ≡ (if (gps_encode clock c g).1 then commit g else g.fix)
unfolding gps_encode end_term add_char begin_sentence commit
gps_encode-commit clock c g = ground (arith, gps_term_complete-fix clock (closing c (counted g)))

-- When the character completes a valid sentence, the fix takes the two clocks of the sentence and,
-- from a GPRMC sentence, its time, date, latitude, longitude, speed and course, from a GPGGA sentence
-- its time, latitude, longitude, altitude, satellites and precision, and keeps the other fields; any
-- other character leaves the whole fix alone.
pub gps_encode-fix :
    (clock c : ℕ) (g : Gps)
    → (gps_encode clock c g).0.fix ≡ (if (gps_encode clock c g).1 then published g else g.fix)
gps_encode-fix clock c g =
    gps_encode-commit clock c g
    ∙ ap (λ f. if (gps_encode clock c g).1 then f else g.fix) (commit-published g)
