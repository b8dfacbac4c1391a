-- ===== src/TinyGps/Query.antt =====
-- What rp_gps.c does with a buffer of characters, and the accessors of tinygps.c that use no float.
use rp_ecosystem.Base.{
  ℕ, ◌+◌, ◌-◌, ◌/◌, ◌%◌, ◌^◌, Bool, true, List, [], ◌∷◌, ltb, ◌==◌, if◌then◌else◌,
}
use rp_ecosystem.TinyGps.State.{Gps, gps_invalid_age, gps_invalid_fix_time}
use rp_ecosystem.TinyGps.Encode.{uptime, gps_encode}

-- The `for` loop over `buf[0 .. res)`, each character with the reading of the clock at that time;
-- the Boolean is `newdata`.
unfoldable pub feed : List (ℕ × ℕ) → Gps × Bool → Gps × Bool
feed [] r = r
feed ((c, clock) ∷ s) (g, newdata) =
    let (g', valid) = gps_encode clock c g in feed s (g', if valid then true else newdata)

-- The age of a fix at a reading of the clock.
unfoldable pub fix_age : ℕ → ℕ → ℕ
unfolding uptime
fix_age clock fix =
    if fix == gps_invalid_fix_time then gps_invalid_age else (uptime clock + 2 ^ 32 - fix) % 2 ^ 32

-- `gps_get_position`: latitude, longitude and the age.
unfoldable pub gps_get_position : ℕ → Gps → ℕ × ℕ × ℕ
unfolding fix_age
gps_get_position clock g = (g.fix.latitude, g.fix.longitude, fix_age clock g.fix.position_fix)

-- `gps_get_datetime`: date, time and the age.
unfoldable pub gps_get_datetime : ℕ → Gps → ℕ × ℕ × ℕ
unfolding fix_age
gps_get_datetime clock g = (g.fix.date, g.fix.time, fix_age clock g.fix.time_fix)

pub record DateTime : Type 0 where
  pub year : ℕ
  pub month : ℕ
  pub day : ℕ
  pub hour : ℕ
  pub minute : ℕ
  pub second : ℕ
  pub hundredths : ℕ
  pub age : ℕ

-- `gps_crack_datetime`, with no null pointer; all but the year and the age are bytes.
unfoldable pub gps_crack_datetime : ℕ → Gps → DateTime
unfolding gps_get_datetime
gps_crack_datetime clock g =
    let (date, time, age) = gps_get_datetime clock g in
    let yy = date % 100 in
    record {
      year = yy + (if ltb 80 yy then 1900 else 2000);
      month = date / 100 % 100 % 2 ^ 8;
      day = date / 10000 % 2 ^ 8;
      hour = time / 1000000 % 2 ^ 8;
      minute = time / 10000 % 100 % 2 ^ 8;
      second = time / 100 % 100 % 2 ^ 8;
      hundredths = time % 100 % 2 ^ 8;
      age = age;
    }

-- `gps_stats`: characters, sentences, failed checksums.
unfoldable pub gps_stats : Gps → ℕ × ℕ × ℕ
gps_stats g = (g.stats.encoded_characters, g.stats.good_sentences, g.stats.failed_checksum)
