-- ===== src/Nmea/Tests.antt =====
-- The theorems of the serial line's decoder at concrete inputs.
use rp_ecosystem.Base.{true, false, [], ◌∷◌, ◌++◌, some, ◌≡◌, refl, arith, Bytes}
use rp_ecosystem.Base.Text.{codes}
use rp_ecosystem.Base.Int.{ℤ, pos, negsuc, ◌+ℤ◌, ◌-ℤ◌, ◌*ℤ◌, to_word}
use rp_ecosystem.Base.Libc.{atoi, digit, strchr, strtol, contains}
use rp_ecosystem.Nmea.Floats.{Floats}
use rp_ecosystem.Nmea.Sentence.{nmea_gpgga, nmea_gprmc, nmea_checksum_err, rp_nmea_get_message_type}
use rp_ecosystem.Nmea.Fields.{
  Gpgga, Gprmc, rp_nmea_parse_gpgga, rp_nmea_parse_gprmc, gps_convert_deg_to_dec,
}
use rp_ecosystem.Nmea.Location.{Loc, gps_location, located, gps_location-two}
use rp_ecosystem.Nmea.Checksum.{sentence, rp_nmea_get_message_type-sentence}
use rp_ecosystem.Nmea.Port.{Port, returned, rp_uart_println, rp_uart_println-sent}

-- Arithmetic on whole numbers in the place of floats.
abbrev pub whole_numbers : Floats
whole_numbers = record {
  Double = ℤ;
  atof = atoi;
  of_int = λ x. x;
  to_int = λ x. x;
  add = λ x y. x +ℤ y;
  sub = λ x y. x -ℤ y;
  mul = λ x y. x *ℤ y;
  div = λ x y. x;
  round = λ x. x;
  whole = λ x. x;
  fraction = λ x. pos 0;
}

abbrev pub gga : Bytes
gga = codes "$GPGGA,123519,4807,N,01131,E,1,08,0.9,545*6F"

abbrev pub rmc : Bytes
rmc = codes "$GPRMC,123519,A,4807,N,01131,E,022,084,230394*1a"

abbrev noise : Bytes
noise = codes "$GPGSV,1*00"

types :
    (rp_nmea_get_message_type gga ≡ some nmea_gpgga)
    × (rp_nmea_get_message_type rmc ≡ some nmea_gprmc)
    × (rp_nmea_get_message_type noise ≡ some 0x80)
unfolding rp_nmea_get_message_type strchr contains strtol to_word
types = (refl, refl, refl)

-- A sum that does not agree with its digits.
rp_nmea_get_message_type-sentence_example :
    rp_nmea_get_message_type (sentence (codes "GPRMC,1") true false 0x7B (b'\r' ∷ []))
    ≡ some nmea_checksum_err
unfolding rp_nmea_get_message_type digit
rp_nmea_get_message_type-sentence_example =
    rp_nmea_get_message_type-sentence (codes "GPRMC,1") true false 0x7B (b'\r' ∷ []) (omega arith)
      (omega arith) (omega arith) refl (omega arith)

abbrev no_gga : Gpgga whole_numbers
no_gga = record {
  times = pos 0;
  latitude = pos 0;
  lat = 0;
  longitude = pos 0;
  lon = 0;
  quality = 0;
  satellites = 0;
  altitude = pos 0;
}

abbrev no_rmc : Gprmc whole_numbers
no_rmc = record {
  times = pos 0;
  latitude = pos 0;
  lat = 0;
  longitude = pos 0;
  lon = 0;
  speed = pos 0;
  course = pos 0;
  date = pos 0;
}

abbrev read_gga : Gpgga whole_numbers
read_gga = record {
  times = pos 123519;
  latitude = pos 4807;
  lat = b'N';
  longitude = pos 1131;
  lon = b'E';
  quality = 1;
  satellites = 8;
  altitude = pos 545;
}

abbrev read_rmc : Gprmc whole_numbers
read_rmc = record {
  times = pos 123519;
  latitude = pos 4807;
  lat = b'N';
  longitude = pos 1131;
  lon = b'E';
  speed = pos 22;
  course = pos 84;
  date = pos 230394;
}

abbrev nowhere : Loc whole_numbers
nowhere = record {
  times = pos 0;
  date = pos 0;
  latitude = pos 0;
  longitude = pos 0;
  speed = pos 0;
  altitude = pos 0;
  course = pos 0;
  satellites = 0;
}

gps_location-two_example :
    gps_location whole_numbers no_gga no_rmc
      ((noise ∷ []) ++ gga ∷ ((noise ∷ []) ++ rmc ∷ noise ∷ []))
      nowhere
    ≡ located
        (record {
          times = pos 123519;
          date = pos 230394;
          latitude = gps_convert_deg_to_dec whole_numbers (pos 4807) b'N' b'N';
          longitude = gps_convert_deg_to_dec whole_numbers (pos 1131) b'E' b'E';
          speed = pos 22;
          altitude = pos 545;
          course = pos 84;
          satellites = 8;
        })
        (noise ∷ [])
unfolding rp_nmea_get_message_type strchr contains strtol to_word rp_nmea_parse_gpgga
    rp_nmea_parse_gprmc atoi
gps_location-two_example =
    gps_location-two whole_numbers no_gga no_rmc (noise ∷ []) (noise ∷ []) (noise ∷ []) gga rmc
      read_gga read_rmc nowhere (omega arith, (0x80, refl, omega arith, omega arith), tt)
      (omega arith, refl, refl) (omega arith, (0x80, refl, omega arith, omega arith), tt)
      (omega arith, refl, refl)

abbrev port : Port
port = record {
  uart_fd = pos 4;
  settings = record { c_iflag = 0; c_oflag = 0; c_cflag = 0; c_lflag = 0 };
  sent = [];
  leaked = 0;
  overrun = 0;
}

-- A line with its own length: the last byte is not sent.
rp_uart_println-sent_example :
    (rp_uart_println (some (0 ∷ 0 ∷ 0 ∷ [])) (pos 3) (codes "OK") 2 port
      ≡ returned (record port { sent = b'O' ∷ b'\r' ∷ b'\n' ∷ [] }) (pos 0))
    × (rp_uart_println (some (0 ∷ 0 ∷ 0 ∷ [])) (negsuc 0) (codes "OK") 2 port
        ≡ returned (record port { leaked = 1 }) (negsuc 0))
rp_uart_println-sent_example =
    rp_uart_println-sent port (codes "OK") (0 ∷ 0 ∷ 0 ∷ []) 1 refl refl (omega arith)
