-- ===== src/Venus/Tests.antt =====
-- The theorems of the Venus decoder at concrete sentences.
use rp_ecosystem.Base.{[], ◌∷◌, List, Bytes, some, ◌≡◌, refl, arith}
use rp_ecosystem.Base.Text.{codes}
use rp_ecosystem.Base.Int.{pos}
use rp_ecosystem.Nmea.Fields.{gps_convert_deg_to_dec}
use rp_ecosystem.Nmea.Tests.{whole_numbers}
use rp_ecosystem.Venus.Commas.{DateTime, parse_date_time}
use rp_ecosystem.Venus.Location.{Gpgga, Gprmc, Loc}
use rp_ecosystem.Venus.Dates.{parse_date_time-before}

abbrev fields : List Bytes
fields =
    codes "A"
    ∷ codes "5213.13757"
    ∷ codes "N"
    ∷ codes "00008.23605"
    ∷ codes "E"
    ∷ codes "0.272"
    ∷ []
    ∷ []

parse_date_time-before_example :
    parse_date_time
      (λ i. 0)
      (codes "$GPRMC,092741.00,A,5213.13757,N,00008.23605,E,0.272,,180617,,,A*7F")
    ≡ some (record {
      year = pos 2017;
      month = pos 6;
      day = pos 18;
      hour = pos 9;
      minute = pos 27;
      second = pos 41;
    })
parse_date_time-before_example =
    parse_date_time-before (λ i. 0) 9 27 41 18 6 17 (codes ".00") fields (codes ",,,A*7F")
      (omega arith) (omega arith) (omega arith) (omega arith) (omega arith) (omega arith)
      (omega arith) refl (omega arith)

-- 23 March 2094, 12:35:19.
abbrev sent_at : DateTime
sent_at = record {
  year = pos 2094;
  month = pos 3;
  day = pos 23;
  hour = pos 12;
  minute = pos 35;
  second = pos 19;
}

abbrev no_gga : Gpgga whole_numbers (λ x. x) (pos 2) (λ i. 0)
no_gga = record {
  latitude = pos 0;
  longitude = pos 0;
  quality = 0;
  satellites = 0;
  height = pos 0;
  ns = 0;
  ew = 0;
}

abbrev read_gga : Gpgga whole_numbers (λ x. x) (pos 2) (λ i. 0)
read_gga = record {
  latitude = pos 4807;
  longitude = pos 1131;
  quality = 1;
  satellites = 8;
  height = pos 545;
  ns = b'N';
  ew = b'E';
}

-- What the local `gprmc` happens to hold.
abbrev left_over : Gprmc whole_numbers (λ x. x) (pos 2) (λ i. 0)
left_over = record {
  latitude = pos 7;
  longitude = pos 8;
  speed = pos 9;
  course = pos 10;
  height = pos 11;
  ns = 0;
  ew = 0;
  d = sent_at;
}

abbrev found : Loc whole_numbers (λ x. x) (pos 2) (λ i. 0)
found = record {
  latitude = gps_convert_deg_to_dec whole_numbers (pos 7) b'N' b'N';
  longitude = gps_convert_deg_to_dec whole_numbers (pos 8) b'E' b'E';
  height = pos 11;
  speed = pos 0;
  course = pos 10;
  d = sent_at;
}
