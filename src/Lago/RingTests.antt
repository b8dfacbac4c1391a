-- ===== src/Lago/RingTests.antt =====
-- The theorems of the ring decoder of lago.c at concrete inputs.
use rp_ecosystem.Base.{ℕ, ◌+◌, ◌-◌, ◌*◌, ◌^◌, true, false, [], ◌∷◌, ◌≡◌, refl, arith}
use rp_ecosystem.Base.Int.{pos, negsuc, ◌+ℤ◌, signed}
use rp_ecosystem.Base.Calendar.{Tm, epoch, gmtime}
use rp_ecosystem.Lago.Words.{pps_word}
use rp_ecosystem.Lago.Clock.{pps_word-time}
use rp_ecosystem.Zynq.Device.{Board}
use rp_ecosystem.Lago.Acquisition.{Acq, sample}
use rp_ecosystem.Lago.Words.{decode}
use rp_ecosystem.Lago.Buffer.{limit, read_buffer}
use rp_ecosystem.Lago.Reader.{current-read_buffer, read_calls, read_calls-stuck}
use rp_ecosystem.Lago.Fields.{decode-sample}
use rp_ecosystem.Lago.Lost.{decode_counters, decode_counters-lost}

-- A board whose words are all zero: no false GPS.
abbrev pub board : Board
board = record { intc = λ o. 0; cfg = λ o. 0; sts = λ o. 0; xadc = λ o. 0 }

abbrev pub some_date : Tm
some_date = record { tm_sec = 0; tm_min = 0; tm_hour = 0; tm_mday = 1; tm_mon = 0; tm_year = 118 }

abbrev pub acq : Acq
acq = record {
  lines = [];
  f_first_time = false;
  false_gps = false;
  file_date = some_date;
  file_time = 0;
  mtd_seconds = 0;
  mtd_bl0 = pos 0;
  mtd_bl1 = pos 0;
  mtd_bl2_0 = pos 0;
  mtd_bl2_1 = pos 0;
  mtd_i_bin = 0;
  mtd_cbl = 0;
  mtd_dp = pos 0;
  mtd_cdp = pos 0;
  mtd_pulse_cnt = 7;
  mtd_pulse_pnt = 0;
  r = 0 ∷ 0 ∷ 0 ∷ 0 ∷ 0 ∷ 0 ∷ 0 ∷ 0 ∷ [];
  r1 = 0;
  r2 = 0;
  hack = 0;
  gps_lat = pos 0;
  gps_lon = pos 0;
  gps_alt = pos 0;
  current = negsuc 1;
}

-- A ring of pulse counters.
abbrev pub ring : ℕ → ℕ
ring i = 2 ^ 31 + 8 + i

current-read_buffer_example : (read_buffer board true ring 0 5 acq).current ≡ pos 4
unfolding ◌+ℤ◌
current-read_buffer_example =
    current-read_buffer board true ring 0 5 acq (omega arith) (omega arith) (omega arith)

abbrev pub at_last : Acq
at_last = record acq { current = pos (limit - 1) }

read_calls-stuck_example : read_calls board true 0 ((ring, 20) ∷ (ring, 900) ∷ []) at_last ≡ at_last
read_calls-stuck_example =
    read_calls-stuck board true 0 ((ring, 20) ∷ (ring, 900) ∷ []) at_last refl refl
      (omega arith, omega arith)

decode-sample_example :
    (decode board true (5 * 2 ^ 16 + 16383) acq).lines ≡ sample (negsuc 0) (pos 5) ∷ []
unfolding signed
decode-sample_example = decode-sample board true 16383 5 acq (omega arith) (omega arith)

-- The counters 8, 9 and 12 behind 7: 10 and 11 were lost.
decode_counters-lost_example :
    let a' = decode_counters board true (8 ∷ 9 ∷ 12 ∷ []) acq in
    (a'.mtd_cdp ≡ pos 2) × (a'.mtd_pulse_cnt ≡ 12)
decode_counters-lost_example =
    decode_counters-lost board true (8 ∷ 9 ∷ 12 ∷ []) 0 acq refl (omega arith) (omega arith)
      (omega arith)

-- A second before the end of February of the year 2020.
abbrev before_leap : ℕ
before_leap = epoch + 1582934399

abbrev dated : Acq
dated = record acq { false_gps = true; file_date = gmtime before_leap }

pps_word-time_example :
    ((pps_word board false (0x1B * 2 ^ 27) dated).file_time ≡ before_leap + 1)
    × ((pps_word board false (0x1B * 2 ^ 27) dated).file_date ≡ gmtime (before_leap + 1))
pps_word-time_example =
    pps_word-time board false (0x1B * 2 ^ 27) dated before_leap refl refl (omega arith)
      (omega arith)
