-- ===== src/TinyGps/State.antt =====
-- The globals of tinygps.c. A `long` is its bit pattern of 32 bits.
use rp_ecosystem.Base.{ℕ, Bool, Bytes}

-- The values of the last accepted sentences (`_time` …), or those of the sentence that is being
-- read (`_new_time` …); `time_fix` and `position_fix` are the clocks at which they were read.
pub record Fix : Type 0 where
  pub time : ℕ
  pub date : ℕ
  pub latitude : ℕ
  pub longitude : ℕ
  pub altitude : ℕ
  pub speed : ℕ
  pub course : ℕ
  pub hdop : ℕ
  pub numsats : ℕ
  pub time_fix : ℕ
  pub position_fix : ℕ

-- The statistics.
pub record Stats : Type 0 where
  pub encoded_characters : ℕ
  pub good_sentences : ℕ
  pub failed_checksum : ℕ
  pub passed_checksum : ℕ

-- `fix` holds `_time` and its like, `new` holds `_new_time` and its like.
pub record Gps : Type 0 where
  pub fix : Fix
  pub new : Fix
  pub parity : ℕ
  pub is_checksum_term : Bool
  pub term : Bytes
  pub sentence_type : ℕ
  pub term_number : ℕ
  pub term_offset : ℕ
  pub is_gps_data_good : Bool
  pub stats : Stats

-- `sizeof(_term)`.
abbrev pub term_size : ℕ
term_size = 15

-- The `enum` of sentence types.
abbrev pub gps_sentence_gpgga : ℕ
gps_sentence_gpgga = 0

abbrev pub gps_sentence_gprmc : ℕ
gps_sentence_gprmc = 1

abbrev pub gps_sentence_other : ℕ
gps_sentence_other = 2

-- The `enum` of invalid values.
abbrev pub gps_invalid_age : ℕ
gps_invalid_age = 0xFFFFFFFF

abbrev pub gps_invalid_fix_time : ℕ
gps_invalid_fix_time = 0xFFFFFFFF
