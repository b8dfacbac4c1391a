-- ===== src/Lago/Clock.antt =====
-- The date of the data over the pulses per second of the false GPS.
use rp_ecosystem.Base.{ℕ, ◌+◌, ◌*◌, ◌^◌, ◌≤◌, ◌<◌, Bool, true, ◌≡◌, ap, ◌∙◌, arith, if◌then◌else◌}
use rp_ecosystem.Base.Calendar.{epoch, timegm, gmtime, timegm-gmtime, timegm-gmtime_same}
use rp_ecosystem.Zynq.Device.{Board}
use rp_ecosystem.Lago.Acquisition.{Acq}
use rp_ecosystem.Lago.Words.{normalise, new_file, tick_false, tick_gps, pps_word}

normalise-time :
    (a : Acq) (t : ℕ)
    → timegm a.file_date ≡ t
    → ((normalise a).file_time ≡ t) × ((normalise a).file_date ≡ gmtime t)
unfolding normalise
normalise-time a t h = (h, ap gmtime h)

tick_false-time :
    (b : Board) (o : Bool) (a : Acq) (t : ℕ)
    → a.file_date ≡ gmtime t
    → 1900 * 366 * 86400 ≤ t
    → t + 1 < epoch + 2 ^ 31
    → timegm (tick_false b o a).file_date ≡ t + 1
unfolding tick_false new_file normalise
tick_false-time b o a t h l u =
    let d = a.file_date in
    let next : timegm (record d { tm_sec = d.tm_sec + 1 }) ≡ t + 1 = rw h (timegm-gmtime t 1 l u) in
    let again : timegm (gmtime (timegm (record d { tm_sec = d.tm_sec + 1 }))) ≡ t + 1 =
      ap (λ s. timegm (gmtime s)) next ∙ timegm-gmtime_same (t + 1) (omega arith) u in
    ground (arith, next, again)

-- With the false GPS, a pulse per second moves the time and the date of the data from a time t,
-- from the year 1905 on, to t + 1, as long as a `time_t` holds it, also over the end of an hour, a
-- month or a year, and whether or not a new file is begun.
pub pps_word-time :
    (b : Board) (o : Bool) (wo : ℕ) (a : Acq) (t : ℕ)
    → a.false_gps ≡ true
    → a.file_date ≡ gmtime t
    → 1900 * 366 * 86400 ≤ t
    → t + 1 < epoch + 2 ^ 31
    → ((pps_word b o wo a).file_time ≡ t + 1) × ((pps_word b o wo a).file_date ≡ gmtime (t + 1))
unfolding pps_word normalise
pps_word-time b o wo a t f h l u =
    let e = tick_false-time b o a t h l u in
    let ticked : timegm (if a.false_gps then tick_false b o a else tick_gps b o wo a).file_date
        ≡ t + 1 =
      ground (arith, f, e) in
    (ticked, ap gmtime ticked)
