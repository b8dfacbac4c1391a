-- ===== src/Nmea/Location.antt =====
-- `gps_location` of gps_rp.c: lines are read until one of each kind has been decoded.
use rp_ecosystem.Base.{
  ℕ, bit_or, List, [], ◌∷◌, Option, none, some, ◌==◌, ltb, ◌≤◌, length, if◌then◌else◌, Bytes, ◌≡◌,
  ◌≢◌, ◌++◌, ◌∙◌, refl, arith,
}
use rp_ecosystem.Nmea.Floats.{Floats}
use rp_ecosystem.Nmea.Sentence.{empty, nmea_gpgga, nmea_gprmc, completed, rp_nmea_get_message_type}
use rp_ecosystem.Nmea.Fields.{
  Gpgga, Gprmc, rp_nmea_parse_gpgga, rp_nmea_parse_gprmc, gps_convert_deg_to_dec,
}

module _ (F : Floats) where
  open F use {Double, of_int}

  -- `loc_t`; the number of satellites is kept before its conversion to `double`.
  pub record Loc : Type 0 where
    pub times : Double
    pub date : Double
    pub latitude : Double
    pub longitude : Double
    pub speed : Double
    pub altitude : Double
    pub course : Double
    pub satellites : ℕ

  -- How the loop is left: `located` keeps the lines that it did not read, `waiting` has used up the
  -- lines, `faulted` went on from a null pointer, `overrun` wrote behind the buffer of the line.
  pub data Outcome : Type 0 where
    located : Loc → List Bytes → Outcome
    waiting : Loc → ℕ → Outcome
    faulted : Outcome
    overrun : Outcome

  -- The body of the loop. `g` and `m` are what the uninitialised locals hold.
  unfoldable pub gps_round : Gpgga F → Gprmc F → Bytes → Loc × ℕ → Option (Loc × ℕ)
  gps_round g m buffer (coord, status) = elim (rp_nmea_get_message_type buffer) [
    | none ↦ none
    | some type ↦
        if type == nmea_gpgga
        then (elim (rp_nmea_parse_gpgga F buffer g) [
          | none ↦ none
          | some gpgga ↦ some (
            record coord {
              times = gpgga.times;
              latitude = gps_convert_deg_to_dec F gpgga.latitude gpgga.lat b'N';
              longitude = gps_convert_deg_to_dec F gpgga.longitude gpgga.lon b'E';
              altitude = gpgga.altitude;
              satellites = gpgga.satellites;
            },
            bit_or status nmea_gpgga,
          )
        ])
        else if type == nmea_gprmc
        then (elim (rp_nmea_parse_gprmc F buffer m) [
          | none ↦ none
          | some gprmc ↦ some (
            record coord { speed = gprmc.speed; course = gprmc.course; date = gprmc.date },
            bit_or status nmea_gprmc,
          )
        ])
        else some (coord, status)
  ]

  -- `while (status != _COMPLETED)`, over the lines that arrive, each read into 256 bytes with its NUL.
  unfoldable pub location_loop : Gpgga F → Gprmc F → List Bytes → Loc × ℕ → Outcome
  unfolding gps_round
  location_loop g m [] (coord, status) =
      if status == completed then located coord [] else waiting coord status
  location_loop g m (buffer ∷ lines) (coord, status) =
      if status == completed
      then located coord (buffer ∷ lines)
      else if ltb 255 (length buffer)
      then overrun
      else (elim (gps_round g m buffer (coord, status)) [
        | none ↦ faulted
        | some next ↦ location_loop g m lines next
      ])

  unfoldable pub gps_location : Gpgga F → Gprmc F → List Bytes → Loc → Outcome
  unfolding location_loop
  gps_location g m lines coord = location_loop g m lines (coord, empty)

  -- Lines of the two kinds, with enough fields, and lines that the loop passes over, all of at most 255
  -- bytes.
  abbrev pub IsGga : Gpgga F → Bytes → Gpgga F → Type 0
  IsGga g l r =
      (length l ≤ 255)
      × (rp_nmea_get_message_type l ≡ some nmea_gpgga)
      × (rp_nmea_parse_gpgga F l g ≡ some r)

  abbrev pub IsRmc : Gprmc F → Bytes → Gprmc F → Type 0
  IsRmc m l r =
      (length l ≤ 255)
      × (rp_nmea_get_message_type l ≡ some nmea_gprmc)
      × (rp_nmea_parse_gprmc F l m ≡ some r)

  abbrev pub Skipped : List Bytes → Type 0
  Skipped [] = Unit
  Skipped (l ∷ ls) =
      (length l ≤ 255)
      × ((t : ℕ) × (rp_nmea_get_message_type l ≡ some t) × (t ≢ nmea_gpgga) × (t ≢ nmea_gprmc))
      × Skipped ls

  location_loop-Skipped :
      (g : Gpgga F) (m : Gprmc F) (xs rest : List Bytes) (coord : Loc) (status : ℕ)
      → Skipped xs
      → status ≢ completed
      → location_loop g m (xs ++ rest) (coord, status) ≡ location_loop g m rest (coord, status)
  unfolding location_loop gps_round
  location_loop-Skipped g m [] rest coord status h n = refl
  location_loop-Skipped g m (l ∷ xs) rest coord status (f, (t, e, a, b), h) n =
      let ih = location_loop-Skipped g m xs rest coord status h n in rw e (ground (arith, ih))

  -- A step over a GPGGA line, and over a GPRMC line.
  after_gga : Gpgga F → Loc → Loc
  after_gga r coord = record coord {
    times = r.times;
    latitude = gps_convert_deg_to_dec F r.latitude r.lat b'N';
    longitude = gps_convert_deg_to_dec F r.longitude r.lon b'E';
    altitude = r.altitude;
    satellites = r.satellites;
  }

  after_rmc : Gprmc F → Loc → Loc
  after_rmc r coord = record coord { speed = r.speed; course = r.course; date = r.date }

  location_loop-gga :
      (g : Gpgga F) (m : Gprmc F) (l : Bytes) (r : Gpgga F) (rest : List Bytes) (coord : Loc)
      (status : ℕ)
      → IsGga g l r
      → status ≢ completed
      → location_loop g m (l ∷ rest) (coord, status)
        ≡ location_loop g m rest (after_gga r coord, bit_or status nmea_gpgga)
  unfolding location_loop gps_round after_gga
  location_loop-gga g m l r rest coord status (f, e, p) n = rw (e, p) (ground arith)

  location_loop-rmc :
      (g : Gpgga F) (m : Gprmc F) (l : Bytes) (r : Gprmc F) (rest : List Bytes) (coord : Loc)
      (status : ℕ)
      → IsRmc m l r
      → status ≢ completed
      → location_loop g m (l ∷ rest) (coord, status)
        ≡ location_loop g m rest (after_rmc r coord, bit_or status nmea_gprmc)
  unfolding location_loop gps_round after_rmc
  location_loop-rmc g m l r rest coord status (f, e, p) n = rw (e, p) (ground arith)

  location_loop-completed :
      (g : Gpgga F) (m : Gprmc F) (rest : List Bytes) (coord : Loc)
      → location_loop g m rest (coord, completed) ≡ located coord rest
  unfolding location_loop
  location_loop-completed g m [] coord = refl
  location_loop-completed g m (l ∷ rest) coord = refl

  -- Whatever lines of at most 255 bytes that are given another type or a wrong checksum arrive before
  -- and in between, when a GPGGA line and later a GPRMC line arrive, each valid, with enough fields and
  -- of at most 255 bytes, the loop returns behind the GPRMC line with the position of the GPGGA line
  -- and the speed, course and date of the GPRMC line, and leaves the later lines unread.
  pub gps_location-two :
      (g : Gpgga F) (m : Gprmc F) (xs ys rest : List Bytes) (l k : Bytes) (r : Gpgga F)
      (q : Gprmc F) (coord : Loc)
      → Skipped xs
      → IsGga g l r
      → Skipped ys
      → IsRmc m k q
      → gps_location g m (xs ++ l ∷ (ys ++ k ∷ rest)) coord
        ≡ located
            (record {
              times = r.times;
              date = q.date;
              latitude = gps_convert_deg_to_dec F r.latitude r.lat b'N';
              longitude = gps_convert_deg_to_dec F r.longitude r.lon b'E';
              speed = q.speed;
              altitude = r.altitude;
              course = q.course;
              satellites = r.satellites;
            })
            rest
  unfolding gps_location after_gga after_rmc
  gps_location-two g m xs ys rest l k r q coord a b c d =
      let coord' = after_gga r coord in
      location_loop-Skipped g m xs (l ∷ (ys ++ k ∷ rest)) coord empty a (omega arith)
      ∙ location_loop-gga g m l r (ys ++ k ∷ rest) coord empty b (omega arith)
      ∙ location_loop-Skipped g m ys (k ∷ rest) coord' nmea_gpgga c (omega arith)
      ∙ location_loop-rmc g m k q rest coord' nmea_gpgga d (omega arith)
      ∙ location_loop-completed g m rest (after_rmc q coord')
