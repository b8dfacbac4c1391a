-- ===== src/Nmea/Fields.antt =====
-- `rp_NmeaParseGpgga` and `rp_NmeaParseGprmc` of nmea_rp.c, and `gps_deg_dec` and
-- `gps_convert_deg_to_dec` of gps_rp.c. None stands for a sentence with too few commas, on which the
-- program goes on from a null pointer.
use rp_ecosystem.Base.{◌>>=◌, ℕ, [], ◌∷◌, Option, none, some, ◌==◌, ◌||◌, if◌then◌else◌, Bytes}
use rp_ecosystem.Base.Int.{pos, negsuc, ◌*ℤ◌, to_word}
use rp_ecosystem.Base.Libc.{strchr, atoi}
use rp_ecosystem.Nmea.Floats.{Floats}
use rp_ecosystem.Nmea.Sentence.{rest_of}

-- `strchr(ptr, ',')+1`.
unfoldable pub next : Bytes → Option Bytes
next ptr = elim (strchr ptr b',') [ none ↦ none | some s ↦ some (rest_of s) ]

-- `switch (ptr[0])` on two letters and the comma; any other byte leaves the field as it was.
unfoldable pub letter : ℕ → ℕ → Bytes → ℕ → ℕ
letter x y [] old = old
letter x y (c ∷ s) old = if c == x || c == y then c else if c == b',' then 0 else old

module _ (F : Floats) where
  open F use {Double, atof, of_int, to_int, add, sub, mul, div, round, whole, fraction}

  pub record Gpgga : Type 0 where
    pub times : Double
    pub latitude : Double
    pub lat : ℕ
    pub longitude : Double
    pub lon : ℕ
    pub quality : ℕ
    pub satellites : ℕ
    pub altitude : Double

  pub record Gprmc : Type 0 where
    pub times : Double
    pub latitude : Double
    pub lat : ℕ
    pub longitude : Double
    pub lon : ℕ
    pub speed : Double
    pub course : Double
    pub date : Double

  unfoldable pub rp_nmea_parse_gpgga : Bytes → Gpgga → Option Gpgga
  unfolding next letter
  rp_nmea_parse_gpgga nmea loc = do
    p1 ← next nmea
    p2 ← next p1
    p3 ← next p2
    p4 ← next p3
    p5 ← next p4
    p6 ← next p5
    p7 ← next p6
    p8 ← next p7
    p9 ← next p8
    some (record {
      times = atof p1;
      latitude = atof p2;
      lat = letter b'N' b'S' p3 loc.lat;
      longitude = atof p4;
      lon = letter b'W' b'E' p5 loc.lon;
      quality = to_word 8 (atoi p6);
      satellites = to_word 8 (atoi p7);
      altitude = atof p9;
    })

  unfoldable pub rp_nmea_parse_gprmc : Bytes → Gprmc → Option Gprmc
  unfolding next letter
  rp_nmea_parse_gprmc nmea loc = do
    p1 ← next nmea
    p2 ← next p1
    p3 ← next p2
    p4 ← next p3
    p5 ← next p4
    p6 ← next p5
    p7 ← next p6
    p8 ← next p7
    p9 ← next p8
    some (record {
      times = atof p1;
      latitude = atof p3;
      lat = letter b'N' b'S' p4 loc.lat;
      longitude = atof p5;
      lon = letter b'W' b'E' p6 loc.lon;
      speed = atof p7;
      course = atof p8;
      date = atof p9;
    })

  -- `gps_deg_dec`; 1000000, 60 and 3600 are exact as floats.
  unfoldable pub gps_deg_dec : Double → Double
  gps_deg_dec deg_point =
      let million = of_int (pos 1000000) in
      let ddeg = whole deg_point in
      let sec = mul (fraction deg_point) (of_int (pos 60)) in
      let deg = to_int (div ddeg (of_int (pos 100))) in
      let min = to_int (sub deg_point (of_int (deg *ℤ pos 100))) in
      let absdlat = round (mul (of_int deg) million) in
      let absmlat = round (mul (of_int min) million) in
      let absslat = round (mul sec million) in
      let sum =
        add (add absdlat (div absmlat (of_int (pos 60)))) (div absslat (of_int (pos 3600))) in
      div (round sum) million

  -- `gps_convert_deg_to_dec`, on one coordinate with its letter and the positive one.
  unfoldable pub gps_convert_deg_to_dec : Double → ℕ → ℕ → Double
  unfolding gps_deg_dec
  gps_convert_deg_to_dec x side positive =
      gps_deg_dec (if side == positive then x else mul (of_int (negsuc 0)) x)
