-- ===== src/TinyGps/Tests.antt =====
-- Runs of the decoder on sentences, and the theorems at concrete inputs.
use rp_ecosystem.Base.{
  ℕ, ◌+◌, ◌*◌, Bool, true, false, ◌&&◌, not, ◌==◌, ltb, ◌≡◌, refl, arith, List, [], ◌∷◌, ◌++◌,
  Bytes, map, ◌^◌, ◌-◌, ◌≤◌, ◌<◌, inl, set,
}
use rp_ecosystem.Base.Text.{codes}
use rp_ecosystem.TinyGps.State.{Fix, Gps}
use rp_ecosystem.TinyGps.Number.{gps_parse_decimal, gps_parse_degrees, gpsisdigit}
use rp_ecosystem.TinyGps.Encode.{
  gps_encode, end_term, gps_term_complete, add_char, checksum_term, checksum, begin_sentence,
  sentence_type_of, data_good, combine, commit, store_field,
}
use rp_ecosystem.TinyGps.Query.{feed}
use rp_ecosystem.TinyGps.Valid.{IsValid, gps_encode-IsValid}
use rp_ecosystem.TinyGps.Accept.{published, gps_encode-fix}
use rp_ecosystem.TinyGps.Sentence.{line}
use rp_ecosystem.TinyGps.Terms.{Term, IsTerm, IsTermChar, AreTerms, accept_terms, publish, blank}
use rp_ecosystem.TinyGps.Sentences.{feed-accept_terms}
use rp_ecosystem.TinyGps.Digits.{gps_parse_degrees-text}

abbrev zero_fix : Fix
zero_fix = record {
  time = 0;
  date = 0;
  latitude = 0;
  longitude = 0;
  altitude = 0;
  speed = 0;
  course = 0;
  hdop = 0;
  numsats = 0;
  time_fix = 0;
  position_fix = 0;
}

abbrev started : Gps
started = record {
  fix = zero_fix;
  new = zero_fix;
  parity = 0;
  is_checksum_term = false;
  term = 0 ∷ 0 ∷ 0 ∷ 0 ∷ 0 ∷ 0 ∷ 0 ∷ 0 ∷ 0 ∷ 0 ∷ 0 ∷ 0 ∷ 0 ∷ 0 ∷ 0 ∷ [];
  sentence_type = 2;
  term_number = 0;
  term_offset = 0;
  is_gps_data_good = false;
  stats = record {
    encoded_characters = 0;
    good_sentences = 0;
    failed_checksum = 0;
    passed_checksum = 0;
  };
}

started-IsValid : IsValid started
started-IsValid = record {
  term_length = refl;
  offset_in = omega arith;
  parity_byte = omega arith;
  number_byte = omega arith;
}

-- A string that arrives at one reading of the clock.
abbrev at_once : Bytes → List (ℕ × ℕ)
at_once = map (λ c. (c, 5000))

abbrev rmc_body : Bytes
rmc_body = codes "GPRMC,081836,A,3751.65,S,14507.36,E,000.0,360.0,130998,011.3,E"

abbrev after_rmc : Gps × Bool
after_rmc =
    feed (line 5000 (at_once rmc_body) 5000 (b'6', 5000) (b'2', 5000) (b'\r', 5000))
      (started, false)

rmc_result :
    (after_rmc.0.fix.time ≡ 8183600)
    × (after_rmc.1 ≡ true)
    × (after_rmc.0.fix.date ≡ 130998)
    × (after_rmc.0.fix.latitude ≡ 2 ^ 32 - 3786083)
unfolding feed gps_encode end_term gps_term_complete add_char checksum_term checksum begin_sentence
    sentence_type_of data_good combine commit store_field gps_parse_decimal gps_parse_degrees
rmc_result = (refl, refl, refl, refl)

abbrev is_term_char : ℕ → Bool
is_term_char c =
    ltb c 256
    && not (c == 0)
    && not (c == b'$')
    && not (c == b'*')
    && not (c == b'\r')
    && not (c == b'\n')
    && not (c == b',')

abbrev is_term : Bytes → Bool
is_term [] = true
is_term (c ∷ s) = is_term_char c && is_term s

abbrev are_terms : List Bytes → Bool
are_terms [] = true
are_terms (s ∷ ss) = is_term s && are_terms ss

term_char : (c : ℕ) → is_term_char c ≡ true → IsTermChar c
term_char c h = ground arith

is_term-IsTerm : (s : Bytes) → is_term s ≡ true → IsTerm (at_once s)
is_term-IsTerm [] h = tt
is_term-IsTerm (c ∷ s) h =
    let (a, b) : (is_term_char c ≡ true) × (is_term s ≡ true) = ground arith in
    (term_char c a, is_term-IsTerm s b)

-- Terms whose characters and terminators arrive at one reading of the clock.
abbrev terms_at_once : List Bytes → List (Term × ℕ)
terms_at_once = map (λ s. (at_once s, 5000))

are_terms-AreTerms : (ss : List Bytes) → are_terms ss ≡ true → AreTerms (terms_at_once ss)
are_terms-AreTerms [] h = tt
are_terms-AreTerms (s ∷ ss) h =
    let (a, b) : (is_term s ≡ true) × (are_terms ss ≡ true) = ground arith in
    (is_term-IsTerm s a, are_terms-AreTerms ss b)

abbrev rmc_terms : List Bytes
rmc_terms =
    codes "GPRMC"
    ∷ codes "081836"
    ∷ codes "A"
    ∷ codes "3751.65"
    ∷ codes "S"
    ∷ codes "14507.36"
    ∷ codes "E"
    ∷ codes "000.0"
    ∷ codes "360.0"
    ∷ codes "130998"
    ∷ codes "011.3"
    ∷ []

feed-accept_terms_example :
    (after_rmc.1 ≡ true)
    × (after_rmc.0.fix
        ≡ publish
            (accept_terms (terms_at_once (rmc_terms ++ codes "E" ∷ [])) (blank zero_fix))
            zero_fix)
unfolding feed gps_encode end_term gps_term_complete add_char checksum_term checksum begin_sentence
    sentence_type_of data_good combine store_field gps_parse_decimal gps_parse_degrees commit
feed-accept_terms_example =
    feed-accept_terms started 5000 (terms_at_once rmc_terms) (at_once (codes "E")) 5000 b'6' 5000
      b'2' 5000 b'\r' 5000 started-IsValid (are_terms-AreTerms rmc_terms refl)
      (is_term-IsTerm (codes "E") refl) (omega arith) (omega arith) (inl refl)

gps_encode-IsValid_example : IsValid (gps_encode 5000 b',' started).0
gps_encode-IsValid_example = gps_encode-IsValid 5000 b',' started (omega arith) started-IsValid

-- A decoder at the end of a checksum that matches, `4A`, and one whose data are not good.
abbrev at_checksum : Bool → Gps
at_checksum good = record started {
  parity = 0x4A;
  is_checksum_term = true;
  term = set (set started.term 0 b'4') 1 b'A';
  term_offset = 2;
  is_gps_data_good = good;
}

gps_encode-fix_example :
    (gps_encode 5000 b'\r' (at_checksum true)).0.fix ≡ published (at_checksum true)
unfolding gps_encode end_term gps_term_complete checksum_term checksum
gps_encode-fix_example = gps_encode-fix 5000 b'\r' (at_checksum true)

gps_parse_degrees-text_example :
    (6 * gps_parse_degrees (codes "3751.6500") ≤ 37 * 600000 + 516500)
    × (37 * 600000 + 516500 < 6 * gps_parse_degrees (codes "3751.6500") + 6)
unfolding gpsisdigit
gps_parse_degrees-text_example =
    gps_parse_degrees-text (3 ∷ 7 ∷ 5 ∷ 1 ∷ []) 6 5 0 0 [] (omega arith) (omega arith) refl
      (omega arith)
