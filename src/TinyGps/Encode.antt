-- ===== src/TinyGps/Encode.antt =====
-- `gps_term_complete` and `gps_encode` of tinygps.c.
use rp_ecosystem.Base.{
  ℕ, ◌+◌, ◌-◌, ◌*◌, ◌/◌, ◌%◌, ◌^◌, bit_or, bit_xor, Bool, true, false, ◌&&◌, ◌||◌, not, ltb, ◌==◌,
  if◌then◌else◌, Bytes, get_or, set,
}
use rp_ecosystem.Base.Text.{codes}
use rp_ecosystem.Base.Libc.{atoi}
use rp_ecosystem.Base.Int.{to_word}
use rp_ecosystem.TinyGps.State.{
  Fix, Gps, term_size, gps_sentence_gpgga, gps_sentence_gprmc, gps_sentence_other,
}
use rp_ecosystem.TinyGps.Number.{
  from_hex, gpsatol, gpsstrcmp, gps_parse_decimal, gps_parse_degrees, neg32, peek,
}

-- `clock() / (CLOCKS_PER_SEC / 1000)`, at a reading of the clock.
unfoldable pub uptime : ℕ → ℕ
uptime clock = clock / (1000000 / 1000)

-- `COMBINE`.
unfoldable pub combine : ℕ → ℕ → ℕ
combine sentence_type term_number = bit_or (sentence_type * 2 ^ 5) term_number

-- The assignments of an accepted sentence, with the two fix times before the `switch`.
unfoldable pub commit : Gps → Fix
commit g =
    let base = record g.fix { time_fix = g.new.time_fix; position_fix = g.new.position_fix } in
    if g.sentence_type == gps_sentence_gprmc
    then record base {
      time = g.new.time;
      date = g.new.date;
      latitude = g.new.latitude;
      longitude = g.new.longitude;
      speed = g.new.speed;
      course = g.new.course;
    }
    else if g.sentence_type == gps_sentence_gpgga
    then record base {
      altitude = g.new.altitude;
      time = g.new.time;
      latitude = g.new.latitude;
      longitude = g.new.longitude;
      numsats = g.new.numsats;
      hdop = g.new.hdop;
    }
    else base

-- `(byte)(16 * from_hex(_term[0]) + from_hex(_term[1]))`.
unfoldable pub checksum : Bytes → ℕ
unfolding from_hex
checksum term = (16 * from_hex (get_or term 0 0) + from_hex (get_or term 1 0)) % 2 ^ 8

-- The branch on `_is_checksum_term`.
unfoldable pub checksum_term : Gps → Gps × Bool
checksum_term g =
    let st = g.stats in
    if checksum g.term == g.parity
    then (if g.is_gps_data_good
        then (
          record g {
            fix = commit g;
            stats = record st { good_sentences = (st.good_sentences + 1) % 2 ^ 16 };
          },
          true,
        )
        else (g, false))
    else (
      record g { stats = record st { failed_checksum = (st.failed_checksum + 1) % 2 ^ 16 } },
      false,
    )

-- The sentence type that the first term names.
unfoldable pub sentence_type_of : Bytes → ℕ
unfolding gpsstrcmp
sentence_type_of term =
    if gpsstrcmp term (codes "GPRMC") == 0
    then gps_sentence_gprmc
    else if gpsstrcmp term (codes "GPGGA") == 0
    then gps_sentence_gpgga
    else gps_sentence_other

-- Some value of the sentence: the `switch` on `COMBINE`, at a reading of the clock.
unfoldable pub store_field : ℕ → ℕ → Bytes → Fix → Fix
store_field clock code term n =
    let is = λ (t k : ℕ). code == combine t k in
    let first = peek term in
    if is gps_sentence_gprmc 1 || is gps_sentence_gpgga 1
    then record n { time = gps_parse_decimal term; time_fix = uptime clock }
    else if is gps_sentence_gprmc 3 || is gps_sentence_gpgga 2
    then record n { latitude = gps_parse_degrees term; position_fix = uptime clock }
    else if is gps_sentence_gprmc 4 || is gps_sentence_gpgga 3
    then (if first == b'S' then record n { latitude = neg32 n.latitude } else n)
    else if is gps_sentence_gprmc 5 || is gps_sentence_gpgga 4
    then record n { longitude = gps_parse_degrees term }
    else if is gps_sentence_gprmc 6 || is gps_sentence_gpgga 5
    then (if first == b'W' then record n { longitude = neg32 n.longitude } else n)
    else if is gps_sentence_gprmc 7
    then record n { speed = gps_parse_decimal term }
    else if is gps_sentence_gprmc 8
    then record n { course = gps_parse_decimal term }
    else if is gps_sentence_gprmc 9
    then record n { date = gpsatol term }
    else if is gps_sentence_gpgga 7
    then record n { numsats = to_word 8 (atoi term) }
    else if is gps_sentence_gpgga 8
    then record n { hdop = gps_parse_decimal term }
    else if is gps_sentence_gpgga 9
    then record n { altitude = gps_parse_decimal term }
    else n

-- The two cases of the same `switch` that set `_is_gps_data_good`.
unfoldable pub data_good : ℕ → Bytes → Bool → Bool
data_good code term good =
    if code == combine gps_sentence_gprmc 2
    then peek term == b'A'
    else if code == combine gps_sentence_gpgga 6
    then ltb b'0' (peek term)
    else good

-- `gps_term_complete`, at a reading of the clock.
unfoldable pub gps_term_complete : ℕ → Gps → Gps × Bool
gps_term_complete clock g =
    let code = combine g.sentence_type g.term_number in
    if g.is_checksum_term
    then checksum_term g
    else if g.term_number == 0
    then (record g { sentence_type = sentence_type_of g.term }, false)
    else if not (g.sentence_type == gps_sentence_other) && not (peek g.term == 0)
    then (
      record g {
        new = store_field clock code g.term g.new;
        is_gps_data_good = data_good code g.term g.is_gps_data_good;
      },
      false,
    )
    else (g, false)

-- The terminators `,`, `\r`, `\n` and `*` of `gps_encode`; a comma joins the parity first.
unfoldable pub end_term : ℕ → ℕ → Gps → Gps × Bool
end_term clock c g =
    let summed = record g { parity = if c == b',' then bit_xor g.parity c else g.parity } in
    let (done, valid) =
      (if ltb g.term_offset term_size
        then gps_term_complete clock (record summed { term = set g.term g.term_offset 0 })
        else (summed, false)) in
    (
      record done {
        term_number = (done.term_number + 1) % 2 ^ 8;
        term_offset = 0;
        is_checksum_term = c == b'*';
      },
      valid,
    )

-- `$` begins a sentence.
unfoldable pub begin_sentence : Gps → Gps
begin_sentence g = record g {
  term_number = 0;
  term_offset = 0;
  parity = 0;
  sentence_type = gps_sentence_other;
  is_checksum_term = false;
  is_gps_data_good = false;
}

-- An ordinary character.
unfoldable pub add_char : ℕ → Gps → Gps
add_char c g =
    let room = ltb g.term_offset (term_size - 1) in
    record g {
      term = if room then set g.term g.term_offset c else g.term;
      term_offset = if room then g.term_offset + 1 else g.term_offset;
      parity = if g.is_checksum_term then g.parity else bit_xor g.parity c;
    }

abbrev pub is_terminator : ℕ → Bool
is_terminator c = c == b',' || c == b'\r' || c == b'\n' || c == b'*'

-- `_encoded_characters++`.
abbrev pub counted : Gps → Gps
counted g =
    let st = g.stats in
    record g { stats = record st { encoded_characters = (st.encoded_characters + 1) % 2 ^ 32 } }

-- `gps_encode`: the state after one character, and whether it completed a valid sentence.
unfoldable pub gps_encode : ℕ → ℕ → Gps → Gps × Bool
gps_encode clock c g =
    if is_terminator c
    then end_term clock c (counted g)
    else if c == b'$'
    then (begin_sentence (counted g), false)
    else (add_char c (counted g), false)
