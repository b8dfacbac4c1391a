-- ===== src/Base/Calendar.antt =====
-- `timegm` and `gmtime` of the C library, for dates from the year 0 on. A `time_t` is counted here
-- from the first of March of the year 0; the C value is less by `epoch`, and has 32 bits.
use Prim.Native.Nat.{ℕ, ◌+◌, ◌-◌, ◌*◌, ◌/◌, ◌%◌, ◌^◌, ◌<◌, ◌≤◌}
use mathlib.Core.Path.{◌≡◌, refl}
use native.Mathlib.Omega.{arith}
use mathlib.Core.Bool.{true}
use rp_ecosystem.Base.Tests.{ltb, if◌then◌else◌}

-- `struct tm`: the month counts from 0, the year from 1900.
pub record Tm : Type 0 where
  pub tm_sec : ℕ
  pub tm_min : ℕ
  pub tm_hour : ℕ
  pub tm_mday : ℕ
  pub tm_mon : ℕ
  pub tm_year : ℕ

abbrev pub epoch : ℕ
epoch = 719468 * 86400

-- The days from the first of March of the year 0 to the first of a month.
unfoldable pub days_before : ℕ → ℕ → ℕ
days_before year mon =
    let early = ltb mon 2 in
    let y = if early then year - 1 else year in
    let m = if early then mon + 10 else mon - 2 in
    let yoe = y % 400 in y / 400 * 146097 + (yoe * 365 + yoe / 4 - yoe / 100) + (153 * m + 2) / 5

-- `timegm`: fields beyond their range carry over; a time that a `time_t` cannot hold is -1.
unfoldable pub timegm : Tm → ℕ
unfolding days_before
timegm t =
    let days = days_before (t.tm_year + 1900) t.tm_mon + t.tm_mday - 1 in
    let s = days * 86400 + t.tm_hour * 3600 + t.tm_min * 60 + t.tm_sec in
    if ltb s (epoch + 2 ^ 31) then s else epoch - 1

-- `gmtime`.
unfoldable pub gmtime : ℕ → Tm
gmtime s =
    let z = s / 86400 in
    let doe = z % 146097 in
    let yoe = (doe - doe / 1460 + doe / 36524 - doe / 146096) / 365 in
    let doy = doe - (365 * yoe + yoe / 4 - yoe / 100) in
    let mp = (5 * doy + 2) / 153 in
    let early = ltb mp 10 in
    record {
      tm_sec = s % 60;
      tm_min = s / 60 % 60;
      tm_hour = s / 3600 % 24;
      tm_mday = doy - (153 * mp + 2) / 5 + 1;
      tm_mon = if early then mp + 2 else mp - 10;
      tm_year = yoe + z / 146097 * 400 + (if early then 0 else 1) - 1900;
    }

end_of_february :
    gmtime (epoch + 1582934400 - 1)
    ≡ record { tm_sec = 59; tm_min = 59; tm_hour = 23; tm_mday = 28; tm_mon = 1; tm_year = 120 }
unfolding gmtime
end_of_february = refl

leap_day :
    gmtime (
      timegm (record {
        tm_sec = 60;
        tm_min = 59;
        tm_hour = 23;
        tm_mday = 28;
        tm_mon = 1;
        tm_year = 120;
      }))
    ≡ record { tm_sec = 0; tm_min = 0; tm_hour = 0; tm_mday = 29; tm_mon = 1; tm_year = 120 }
unfolding gmtime timegm
leap_day = refl

pub gmtime_fields :
    (s : ℕ) → ((gmtime s).tm_sec < 60) × ((gmtime s).tm_min < 60) × ((gmtime s).tm_hour < 24)
unfolding gmtime
gmtime_fields s = omega arith

-- The year of an era of 400 years, and the days before it.
doe_year :
    (doe : ℕ)
    → doe < 146097
    → let yoe = (doe - doe / 1460 + doe / 36524 - doe / 146096) / 365 in
      (yoe * 365 + yoe / 4 - yoe / 100 ≤ doe) × (yoe < 400)
doe_year doe h = omega arith

month_of :
    (doe : ℕ)
    → doe < 146097
    → let yoe = (doe - doe / 1460 + doe / 36524 - doe / 146096) / 365 in
      let doy = doe - (365 * yoe + yoe / 4 - yoe / 100) in
      let mp = (5 * doy + 2) / 153 in (mp < 12) × ((153 * mp + 2) / 5 ≤ doy)
month_of doe h = omega arith

-- From the first of March of 1900 on, the days of a date are those that it was made from.
days_gmtime :
    (s : ℕ)
    → 1900 * 366 * 86400 ≤ s
    → days_before ((gmtime s).tm_year + 1900) (gmtime s).tm_mon + (gmtime s).tm_mday - 1 ≡ s / 86400
unfolding gmtime days_before
days_gmtime s h =
    let z = s / 86400 in
    let doe = z % 146097 in
    let a = doe_year doe (omega arith) in let b = month_of doe (omega arith) in ground (arith, a, b)

gmtime_clock :
    (s : ℕ)
    → ((gmtime s).tm_sec ≡ s % 60)
      × ((gmtime s).tm_min ≡ s / 60 % 60)
      × ((gmtime s).tm_hour ≡ s / 3600 % 24)
unfolding gmtime
gmtime_clock s = (refl, refl, refl)

clock_sum :
    (s k : ℕ) → s / 86400 * 86400 + s / 3600 % 24 * 3600 + s / 60 % 60 * 60 + (s % 60 + k) ≡ s + k
clock_sum s k = omega arith

-- `timegm` behind `gmtime` gives the time back, with the seconds that were added in between.
pub timegm-gmtime :
    (s k : ℕ)
    → 1900 * 366 * 86400 ≤ s
    → s + k < epoch + 2 ^ 31
    → timegm (record (gmtime s) { tm_sec = (gmtime s).tm_sec + k }) ≡ s + k
unfolding timegm
timegm-gmtime s k h l =
    let (x, y, w) = gmtime_clock s in
    let in_range : ltb (s + k) (epoch + 2 ^ 31) ≡ true = ground arith in
    rw (days_gmtime s h) (rw (x, y, w) (rw (clock_sum s k) (rw in_range refl)))

pub timegm-gmtime_same :
    (s : ℕ) → 1900 * 366 * 86400 ≤ s → s < epoch + 2 ^ 31 → timegm (gmtime s) ≡ s
unfolding timegm
timegm-gmtime_same s h l =
    let (x, y, w) = gmtime_clock s in
    let in_range : ltb s (epoch + 2 ^ 31) ≡ true = ground arith in
    let sum : s / 86400 * 86400 + s / 3600 % 24 * 3600 + s / 60 % 60 * 60 + s % 60 ≡ s =
      omega arith in
    rw (days_gmtime s h) (rw (x, y, w) (rw sum (rw in_range refl)))
