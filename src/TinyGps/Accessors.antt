-- ===== src/TinyGps/Accessors.antt =====
-- The accessors of tinygps.c that answer in `float`, and `gps_cardinal`. The operations on `float` are
-- those of the C compiler: a parameter of which nothing is assumed but where a theorem says so.
use rp_ecosystem.Base.{
  ℕ, zero, suc, ◌%◌, ◌<◌, length, Bool, true, List, [], ◌∷◌, Option, none, some, Bytes, ◌==◌,
  if◌then◌else◌, ◌≡◌, ◌≢◌, refl, ap, ◌∙◌, arith,
}
use rp_ecosystem.Base.Int.{ℤ, pos, negsuc, signed}
use rp_ecosystem.Base.Text.{codes}
use rp_ecosystem.TinyGps.State.{Gps}
use rp_ecosystem.TinyGps.Query.{gps_get_position}

-- The operations, and the constants of tinygps.h and of the functions.
pub record Floats : Type 1 where
  pub Float : Type 0
  pub of_long : ℤ → Float
  pub to_int : Float → ℤ
  pub add : Float → Float → Float
  pub mul : Float → Float → Float
  pub div : Float → Float → Float
  pub eq : Float → Float → Bool
  pub gps_invalid_f_angle : Float
  pub gps_invalid_f_altitude : Float
  pub gps_invalid_f_speed : Float
  pub gps_mph_per_knot : Float
  pub gps_mps_per_knot : Float
  pub gps_kmph_per_knot : Float
  pub half_sector : Float
  pub sector : Float

-- GPS_INVALID_ANGLE, GPS_INVALID_ALTITUDE and GPS_INVALID_SPEED.
abbrev pub gps_invalid : ℕ
gps_invalid = 999999999

abbrev pub directions : List Bytes
directions =
    codes "N"
    ∷ codes "NNE"
    ∷ codes "NE"
    ∷ codes "ENE"
    ∷ codes "E"
    ∷ codes "ESE"
    ∷ codes "SE"
    ∷ codes "SSE"
    ∷ codes "S"
    ∷ codes "SSW"
    ∷ codes "SW"
    ∷ codes "WSW"
    ∷ codes "W"
    ∷ codes "WNW"
    ∷ codes "NW"
    ∷ codes "NNW"
    ∷ []

-- The element of an array at an index; none outside it.
unfoldable pub at_index {ℓ} : {A : Type ℓ} → List A → ℕ → Option A
at_index [] i = none
at_index (x ∷ xs) zero = some x
at_index (x ∷ xs) (suc i) = at_index xs i

-- `directions[direction % 16]`; none for a negative index.
unfoldable pub direction_name : ℤ → Option Bytes
unfolding at_index
direction_name (pos d) = at_index directions (d % 16)
direction_name (negsuc n) = if suc n % 16 == 0 then at_index directions 0 else none

at_index-some {ℓ} :
    {A : Type ℓ} (xs : List A) (i : ℕ) → i < length xs → (x : A) × (at_index xs i ≡ some x)
unfolding at_index
at_index-some [] i h = ground arith
at_index-some (x ∷ xs) zero h = (x, refl)
at_index-some (x ∷ xs) (suc i) h = at_index-some xs i (omega arith)

module _ (F : Floats) where
  -- A stored value over its scale, or what stands for an invalid one.
  unfoldable pub scaled : ℕ → F.Float → ℤ → F.Float
  scaled value invalid scale =
      if value == gps_invalid
      then invalid
      else F.div (F.of_long (signed 32 value)) (F.of_long scale)

  -- `gps_f_get_position`: latitude, longitude and the age. Both tests are of the latitude.
  unfoldable pub gps_f_get_position : ℕ → Gps → F.Float × F.Float × ℕ
  unfolding gps_get_position
  gps_f_get_position clock g =
      let (lat, lon, age) = gps_get_position clock g in
      (
        if lat == gps_invalid
            then F.gps_invalid_f_angle
            else F.div (F.of_long (signed 32 lat)) (F.of_long (pos 100000)),
        if lat == gps_invalid
            then F.gps_invalid_f_angle
            else F.div (F.of_long (signed 32 lon)) (F.of_long (pos 100000)),
        age,
      )

  unfoldable pub gps_f_altitude : Gps → F.Float
  unfolding scaled
  gps_f_altitude g = scaled g.fix.altitude F.gps_invalid_f_altitude (pos 100)

  unfoldable pub gps_f_course : Gps → F.Float
  unfolding scaled
  gps_f_course g = scaled g.fix.course F.gps_invalid_f_angle (pos 100)

  unfoldable pub gps_f_speed_knots : Gps → F.Float
  unfolding scaled
  gps_f_speed_knots g = scaled g.fix.speed F.gps_invalid_f_speed (pos 100)

  unfoldable pub gps_f_speed_mph : Gps → F.Float
  unfolding gps_f_speed_knots
  gps_f_speed_mph g =
      if F.eq (gps_f_speed_knots g) F.gps_invalid_f_speed
      then F.gps_invalid_f_speed
      else F.mul F.gps_mph_per_knot (gps_f_speed_knots g)

  unfoldable pub gps_f_speed_mps : Gps → F.Float
  unfolding gps_f_speed_knots
  gps_f_speed_mps g =
      if F.eq (gps_f_speed_knots g) F.gps_invalid_f_speed
      then F.gps_invalid_f_speed
      else F.mul F.gps_mps_per_knot (gps_f_speed_knots g)

  unfoldable pub gps_f_speed_kmph : Gps → F.Float
  unfolding gps_f_speed_knots
  gps_f_speed_kmph g =
      if F.eq (gps_f_speed_knots g) F.gps_invalid_f_speed
      then F.gps_invalid_f_speed
      else F.mul F.gps_kmph_per_knot (gps_f_speed_knots g)

  -- `gps_cardinal`.
  unfoldable pub gps_cardinal : F.Float → Option Bytes
  unfolding direction_name
  gps_cardinal course = direction_name (F.to_int (F.div (F.add course F.half_sector) F.sector))

  -- A speed that was never read is the invalid speed in every unit, if that equals itself.
  speeds-invalid :
      (g : Gps)
      → F.eq F.gps_invalid_f_speed F.gps_invalid_f_speed ≡ true
      → g.fix.speed ≡ gps_invalid
      → (gps_f_speed_knots g ≡ F.gps_invalid_f_speed)
        × (gps_f_speed_mph g ≡ F.gps_invalid_f_speed)
        × (gps_f_speed_mps g ≡ F.gps_invalid_f_speed)
        × (gps_f_speed_kmph g ≡ F.gps_invalid_f_speed)
  unfolding gps_f_speed_knots gps_f_speed_mph gps_f_speed_mps gps_f_speed_kmph scaled
  speeds-invalid g e h = (rw h refl, rw (h, e) refl, rw (h, e) refl, rw (h, e) refl)

  -- A longitude that was never read is given as 9999.99999 degrees where there is a latitude.
  longitude-invalid :
      (clock : ℕ) (g : Gps)
      → g.fix.latitude ≢ gps_invalid
      → g.fix.longitude ≡ gps_invalid
      → (gps_f_get_position clock g).1 ≡ F.div (F.of_long (pos 999999999)) (F.of_long (pos 100000))
  unfolding gps_f_get_position gps_get_position signed
  longitude-invalid clock g n h = rw h (ground arith)

  -- `gps_cardinal` reads a name of its table wherever the direction is not negative.
  cardinal-name :
      (course : F.Float) (d : ℕ)
      → F.to_int (F.div (F.add course F.half_sector) F.sector) ≡ pos d
      → (name : Bytes) × (gps_cardinal course ≡ some name)
  unfolding gps_cardinal direction_name
  cardinal-name course d h =
      let (name, e) = at_index-some directions (d % 16) (omega arith) in
      (name, ap direction_name h ∙ e)
