-- ===== src/Venus/Location.antt =====
-- `gps_location` of apps/rp_venusGPS/gps_rp.c, with the sentences of its nmea_rp.c. The checksum, the
-- type of a sentence and the conversion of degrees are the same text as lago's and are those of
-- Nmea. None stands for a null pointer.
use rp_ecosystem.Base.{
  ◌>>=◌, ℕ, bit_or, List, [], ◌∷◌, Option, none, some, ◌==◌, if◌then◌else◌, Bytes,
}
use rp_ecosystem.Base.Int.{pos, to_word}
use rp_ecosystem.Base.Libc.{atoi}
use rp_ecosystem.Nmea.Floats.{Floats}
use rp_ecosystem.Nmea.Sentence.{empty, nmea_gpgga, nmea_gprmc, completed, rp_nmea_get_message_type}
use rp_ecosystem.Nmea.Fields.{next, letter, gps_convert_deg_to_dec}
use rp_ecosystem.Venus.Commas.{rp_get_comma, DateTime, byte_of, parse_date_time}

-- The operations on floats, the rounding to `float`, the constant 1.85, and what the buffer holds
-- behind the text.
module _ (F : Floats) (to_float : F.Double → F.Double) (knot : F.Double) (behind : ℕ → ℕ) where
  open F use {Double, atof, of_int, mul}

  -- `gpgga_t`, without the time, which is not set.
  pub record Gpgga : Type 0 where
    pub latitude : Double
    pub longitude : Double
    pub quality : ℕ
    pub satellites : ℕ
    pub height : Double
    pub ns : ℕ
    pub ew : ℕ

  -- `gprmc_t`, without the separate degrees, minutes and seconds, which no other function reads.
  pub record Gprmc : Type 0 where
    pub latitude : Double
    pub longitude : Double
    pub speed : Double
    pub course : Double
    pub height : Double
    pub ns : ℕ
    pub ew : ℕ
    pub d : DateTime

  unfoldable pub rp_nmea_parse_gpgga : Bytes → Gpgga → Option Gpgga
  unfolding next letter
  rp_nmea_parse_gpgga nmea loc = do
    p1 ← next nmea
    p2 ← next p1
    p3 ← next p2
    p4 ← next p3
    p5 ← next p4
    p6 ← next p5
    p7 ← next p6
    p8 ← next p7
    p9 ← next p8
    some (record {
      latitude = atof p2;
      ns = letter b'N' b'S' p3 loc.ns;
      longitude = atof p4;
      ew = letter b'W' b'E' p5 loc.ew;
      quality = to_word 8 (atoi p6);
      satellites = to_word 8 (atoi p7);
      height = to_float (atof p9);
    })

  -- The assignments to the fields of `Gprmc`; `speed_tmp` is 0, and the latitude, the longitude, the
  -- course and the height are not set.
  unfoldable pub rp_nmea_parse_gprmc : Bytes → Gprmc → Option Gprmc
  unfolding rp_get_comma parse_date_time
  rp_nmea_parse_gprmc buf gps = do
    status ← rp_get_comma 2 buf
    ns ← rp_get_comma 4 buf
    ew ← rp_get_comma 6 buf
    d ← parse_date_time behind buf
    some (record gps {
      ns = byte_of behind buf ns;
      ew = byte_of behind buf ew;
      speed = to_float (mul (of_int (pos 0)) knot);
      d = d;
    })

  -- The fields of `loc_t` that `gps_location` sets.
  pub record Loc : Type 0 where
    pub latitude : Double
    pub longitude : Double
    pub height : Double
    pub speed : Double
    pub course : Double
    pub d : DateTime

  -- How the loop is left: `located` keeps the lines that it did not read, `waiting` has used up the
  -- lines, `faulted` went on from a null pointer.
  pub data Outcome : Type 0 where
    located : Loc → List (Bytes × Gpgga × Gprmc) → Outcome
    waiting : Loc → ℕ → Outcome
    faulted : Outcome

  -- The body of the loop, for a line and what the uninitialised locals hold when it is entered.
  unfoldable pub gps_round : Bytes × Gpgga × Gprmc → Loc × ℕ → Option (Loc × ℕ)
  gps_round (buffer, g, m) (coord, status) = elim (rp_nmea_get_message_type buffer) [
    | none ↦ none
    | some type ↦
        if type == nmea_gpgga
        then (elim (rp_nmea_parse_gpgga buffer g) [
          | none ↦ none
          | some gpgga ↦ some (
            record coord {
              latitude = gps_convert_deg_to_dec F gpgga.latitude gpgga.ns b'N';
              longitude = gps_convert_deg_to_dec F gpgga.longitude gpgga.ew b'E';
              height = gpgga.height;
            },
            bit_or status nmea_gpgga,
          )
        ])
        else if type == nmea_gprmc
        then (elim (rp_nmea_parse_gprmc buffer m) [
          | none ↦ none
          | some gprmc ↦ some (
            record {
              latitude = gps_convert_deg_to_dec F gprmc.latitude gprmc.ns b'N';
              longitude = gps_convert_deg_to_dec F gprmc.longitude gprmc.ew b'E';
              height = gprmc.height;
              speed = gprmc.speed;
              course = gprmc.course;
              d = gprmc.d;
            },
            bit_or status nmea_gprmc,
          )
        ])
        else some (coord, status)
  ]

  -- `while (status != _COMPLETED)`, over the lines that arrive.
  unfoldable pub location_loop : List (Bytes × Gpgga × Gprmc) → Loc × ℕ → Outcome
  unfolding gps_round
  location_loop [] (coord, status) =
      if status == completed then located coord [] else waiting coord status
  location_loop (line ∷ lines) (coord, status) =
      if status == completed
      then located coord (line ∷ lines)
      else (elim (gps_round line (coord, status)) [
        | none ↦ faulted
        | some after ↦ location_loop lines after
      ])

  unfoldable pub gps_location : List (Bytes × Gpgga × Gprmc) → Loc → Outcome
  unfolding location_loop
  gps_location lines coord = location_loop lines (coord, empty)

  abbrev after_gga : Gpgga → Loc → Loc
  after_gga r coord = record coord {
    latitude = gps_convert_deg_to_dec F r.latitude r.ns b'N';
    longitude = gps_convert_deg_to_dec F r.longitude r.ew b'E';
    height = r.height;
  }
