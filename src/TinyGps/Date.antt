-- ===== src/TinyGps/Date.antt =====
-- `gps_crack_datetime` on the date and time of a sentence.
use rp_ecosystem.Base.{ℕ, ◌+◌, ◌*◌, ◌≤◌, ◌<◌, ◌≡◌, ◌^◌, arith, ltb, ◌-◌, if◌then◌else◌}
use rp_ecosystem.TinyGps.State.{Gps, gps_invalid_fix_time, gps_invalid_age}
use rp_ecosystem.TinyGps.Encode.{uptime}
use rp_ecosystem.TinyGps.Query.{gps_crack_datetime, fix_age}

-- A date `ddmmyy` and a time `hhmmsscc` of fields below 100 come apart into the fields that they
-- are put together from; a year above 80 is of the last century.
gps_crack_datetime-fields :
    (clock dd mm yy hh mi ss cc : ℕ) (g : Gps)
    → (dd < 100) × (mm < 100) × (yy < 100)
    → (hh < 100) × (mi < 100) × (ss < 100) × (cc < 100)
    → g.fix.date ≡ dd * 10000 + mm * 100 + yy
    → g.fix.time ≡ hh * 1000000 + mi * 10000 + ss * 100 + cc
    → let r = gps_crack_datetime clock g in
      (r.day ≡ dd)
      × (r.month ≡ mm)
      × (r.year ≡ (if ltb 80 yy then 1900 + yy else 2000 + yy))
      × (r.hour ≡ hh)
      × (r.minute ≡ mi)
      × (r.second ≡ ss)
      × (r.hundredths ≡ cc)
unfolding gps_crack_datetime
gps_crack_datetime-fields clock dd mm yy hh mi ss cc g d t e f = ground arith

-- A fix that was taken at one reading of a 32-bit clock has, at a later one, the difference of the
-- two up-times for its age; a fix time of all ones stands for no fix, and has the invalid age.
pub fix_age-uptime :
    (earlier later : ℕ)
    → earlier ≤ later
    → later < 2 ^ 32
    → (fix_age later (uptime earlier) ≡ uptime later - uptime earlier)
      × (uptime earlier + fix_age later (uptime earlier) ≡ uptime later)
      × (fix_age later gps_invalid_fix_time ≡ gps_invalid_age)
unfolding fix_age uptime
fix_age-uptime earlier later h k = ground arith
