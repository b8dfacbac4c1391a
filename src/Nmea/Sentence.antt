-- ===== src/Nmea/Sentence.antt =====
-- `rp_NmeaValidChecksum` and `rp_NmeaGetMessageType` of nmea_rp.c. None stands for a run that leaves
-- the string: a null pointer from `strchr`, or a search for `*` beyond the end.
use rp_ecosystem.Base.{ℕ, bit_xor, [], ◌∷◌, Option, none, some, ◌==◌, if◌then◌else◌, Bytes}
use rp_ecosystem.Base.Text.{codes}
use rp_ecosystem.Base.Int.{to_word}
use rp_ecosystem.Base.Libc.{strtol, strchr, contains}

abbrev pub empty : ℕ
empty = 0x00

abbrev pub nmea_gprmc : ℕ
nmea_gprmc = 0x01

abbrev pub nmea_gpgga : ℕ
nmea_gpgga = 0x02

abbrev pub completed : ℕ
completed = 0x03

abbrev pub nmea_unknown : ℕ
nmea_unknown = 0x00

abbrev pub nmea_checksum_err : ℕ
nmea_checksum_err = 0x80

-- The loop that sums the bytes up to the next `*`.
unfoldable pub sum_to_star : ℕ → Bytes → Option ℕ
sum_to_star sum [] = none
sum_to_star sum (p ∷ message) = if p == b'*' then some sum else sum_to_star (bit_xor sum p) message

-- The string behind the first character.
abbrev pub rest_of : Bytes → Bytes
rest_of [] = []
rest_of (x ∷ s) = s

unfoldable pub rp_nmea_valid_checksum : Bytes → Option ℕ
unfolding sum_to_star
rp_nmea_valid_checksum message = elim (strchr message b'*') [
  | none ↦ none
  | some star ↦
      let checksum = to_word 8 (strtol 16 (rest_of star)) in
      elim (sum_to_star 0 (rest_of message)) [
        | none ↦ none
        | some sum ↦ some (if sum == checksum then empty else nmea_checksum_err)
      ]
]

unfoldable pub rp_nmea_get_message_type : Bytes → Option ℕ
unfolding rp_nmea_valid_checksum
rp_nmea_get_message_type message = elim (rp_nmea_valid_checksum message) [
  | none ↦ none
  | some checksum ↦ some (
      if checksum == empty
      then (if contains message (codes "$GPGGA")
          then nmea_gpgga
          else if contains message (codes "$GPRMC")
          then nmea_gprmc
          else nmea_unknown)
      else checksum)
]
