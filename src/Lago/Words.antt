-- ===== src/Lago/Words.antt =====
-- `new_file` and the decoding of one word of the ring, the body of the loop of `read_buffer`.
use rp_ecosystem.Base.{
  ℕ, ◌+◌, ◌*◌, ◌/◌, ◌%◌, ◌^◌, bit_and, Bool, ◌&&◌, not, ◌∷◌, ltb, ◌==◌, if◌then◌else◌, get_or, set,
}
use rp_ecosystem.Base.Int.{ℤ, pos, ◌+ℤ◌, ◌-ℤ◌, ◌*ℤ◌, shr_ℤ, signed, to_word, ltb_ℤ}
use rp_ecosystem.Base.Calendar.{timegm, gmtime}
use rp_ecosystem.Zynq.Registers.{xadc_ai0_offset, xadc_ai1_offset, xadc_ai2_offset, xadc_ai3_offset}
use rp_ecosystem.Zynq.Device.{Board, rd_cfg_status, adc_counts}
use rp_ecosystem.Lago.Acquisition.{
  Line, opened, header, sample, trigger, pulse_count, frequency, temperature, pressure, time,
  voltages, base_temperatures, gps_position, rate_1, rate_2, unknown_word, Acq,
}

-- `fprintf(fhout, …)`.
abbrev pub print : Line → Acq → Acq
print l a = record a { lines = l ∷ a.lines }

-- `fileTime=timegm(fileDate); fileDate=gmtime(&fileTime);`.
unfoldable pub normalise : Acq → Acq
normalise a = let t = timegm a.file_date in record a { file_time = t; file_date = gmtime t }

-- `new_file`: the date is normalised and a file is opened only if the output is not `stdout`. Of
-- the header the lines with settings are kept; the registers are those of `rd_cfg_status`.
unfoldable pub new_file : Board → Bool → Acq → Acq
unfolding normalise
new_file b to_stdout a =
    let a' = normalise a in
    let started = (if to_stdout then a else print (opened a'.file_date a.false_gps) a') in
    let s = rd_cfg_status b in
    print (header s.trigger_1 s.trigger_2 s.hv_1 s.hv_2 s.scaler_1 s.scaler_2 a.false_gps) started

-- `+=` on a `long`, which wraps around at 32 bits.
unfoldable pub add_long : ℤ → ℤ → ℤ
add_long x y = signed 32 (to_word 32 (x +ℤ y))

-- The two samples of a word, `ch[0]` and `ch[1]`.
abbrev pub channel : ℕ → ℕ → ℤ
channel wo k = signed 16 (wo / 2 ^ (16 * k) % 2 ^ 16)

-- The value that is printed for a sample, after the cast of `%hd`.
unfoldable pub extend : ℤ → ℤ
extend ch =
    let top = shr_ℤ ch 13 in
    signed 16 (to_word 16 (top *ℤ pos (2 ^ 14) +ℤ top *ℤ pos (2 ^ 15) +ℤ ch))

-- A word whose two top bits are 0.
unfoldable pub sample_word : ℕ → Acq → Acq
unfolding add_long
sample_word wo a =
    let c0 = channel wo 0 in
    let c1 = channel wo 1 in
    let a' =
      print (sample (extend c0) (extend c1))
        (record a { mtd_i_bin = (a.mtd_i_bin + 1) % 2 ^ 32 }) in
    if a'.mtd_i_bin == 1
    then record a' {
      mtd_bl0 = add_long a.mtd_bl0 c0;
      mtd_bl2_0 = add_long a.mtd_bl2_0 (c0 *ℤ c0);
      mtd_bl1 = add_long a.mtd_bl1 c1;
      mtd_bl2_1 = add_long a.mtd_bl2_1 (c1 *ℤ c1);
      mtd_cbl = (a.mtd_cbl + 1) % 2 ^ 32;
    }
    else a'

-- Top bits 1: the trigger status and the clock count between pulses per second.
unfoldable pub trigger_word : ℕ → Acq → Acq
trigger_word wo a =
    let trig = bit_and (wo / 2 ^ 27) 0x7 in
    print (trigger trig (bit_and wo 0x7FFFFFF))
      (record a { r = set a.r trig ((get_or a.r trig 0 + 1) % 2 ^ 32); mtd_i_bin = 0 })

-- Top bits 2: the counter of pulses.
unfoldable pub counter_word : ℕ → Acq → Acq
unfolding add_long
counter_word wo a =
    let cnt = bit_and wo 0x3FFFFFFF in
    let dp = pos cnt -ℤ pos a.mtd_pulse_cnt -ℤ pos 1 in
    print (pulse_count cnt) (record a {
      mtd_pulse_pnt = a.mtd_pulse_cnt;
      mtd_pulse_cnt = cnt;
      mtd_dp = dp;
      mtd_cdp =
          if ltb_ℤ (pos 0) dp && not (a.mtd_pulse_cnt == 0)
          then add_long a.mtd_cdp dp
          else a.mtd_cdp;
    })

-- The date at a pulse per second when the clock is that of the processor.
unfoldable pub tick_false : Board → Bool → Acq → Acq
unfolding new_file normalise
tick_false b to_stdout a =
    let d = a.file_date in
    let a' = record a { file_date = record d { tm_sec = d.tm_sec + 1 } } in
    if d.tm_sec + 1 == 60 && d.tm_min == 59
    then (if to_stdout then a' else new_file b to_stdout a')
    else normalise a'

-- The same with the time of the GPS, whose fields stand in the word.
unfoldable pub tick_gps : Board → Bool → ℕ → Acq → Acq
unfolding new_file normalise
tick_gps b to_stdout wo a =
    let d = a.file_date in
    let hour = bit_and (wo / 2 ^ 16) 0xFF in
    let d' = record d {
      tm_mday = if ltb hour d.tm_hour then d.tm_mday + 1 else d.tm_mday;
      tm_hour = hour;
    } in
    let changed = record a { file_date = d' } in
    let a' =
      (if d.tm_hour == hour
        then a
        else if to_stdout
        then changed
        else new_file b to_stdout changed) in
    let d'' = a'.file_date in
    record a' {
      file_date = record d'' {
        tm_hour = hour;
        tm_min = bit_and (wo / 2 ^ 8) 0xFF;
        tm_sec = bit_and wo 0xFF;
      };
    }

-- Code 0x1B: the pulse per second.
unfoldable pub pps_word : Board → Bool → ℕ → Acq → Acq
unfolding tick_false tick_gps normalise
pps_word b to_stdout wo a =
    let ticked = (if a.false_gps then tick_false b to_stdout a else tick_gps b to_stdout wo a) in
    let n = normalise (record ticked { mtd_seconds = (ticked.mtd_seconds + 1) % 2 ^ 32 }) in
    let timed = print (time n.file_date n.file_time (bit_and wo 0x03FFFFFF)) n in
    let volts =
      print (voltages (adc_counts b xadc_ai2_offset) (adc_counts b xadc_ai3_offset)) timed in
    print (base_temperatures n.hack (adc_counts b xadc_ai0_offset) (adc_counts b xadc_ai1_offset))
      (record volts { hack = (n.hack + 1) % 2 ^ 32 })

-- Code 0x1C: a coordinate of 24 bits with a sign, chosen by the bits 24 to 26.
unfoldable pub gps_word : ℕ → Acq → Acq
gps_word wo a =
    let v = signed 24 (bit_and wo 0xFFFFFF) in
    let which = bit_and (wo / 2 ^ 24) 0x7 in
    if which == 0
    then record a { gps_lat = v }
    else if which == 1
    then record a { gps_lon = v }
    else if which == 2
    then print gps_position (record a { gps_alt = v })
    else a

-- The `switch` on the code of a word whose two top bits are 3.
unfoldable pub coded_word : Board → Bool → ℕ → Acq → Acq
coded_word b to_stdout wo a =
    let code = wo / 2 ^ 27 in
    if code == 0x18
    then print (frequency (bit_and wo 0x07FFFFFF)) a
    else if code == 0x19
    then print temperature a
    else if code == 0x1A
    then print pressure a
    else if code == 0x1B
    then pps_word b to_stdout wo a
    else if code == 0x1C
    then gps_word wo a
    else if code == 0x1D
    then print (rate_1 (bit_and wo 0x00FFFFFF)) (record a { r1 = bit_and wo 0x00FFFFFF })
    else if code == 0x1E
    then print (rate_2 (bit_and wo 0x00FFFFFF)) (record a { r2 = bit_and wo 0x00FFFFFF })
    else print (unknown_word code) a

-- The loop's body but for `current`, on the word at the index.
unfoldable pub decode : Board → Bool → ℕ → Acq → Acq
decode b to_stdout wo a =
    let top = wo / 2 ^ 30 in
    if top == 0
    then sample_word wo a
    else if top == 1
    then trigger_word wo a
    else if top == 2
    then counter_word wo a
    else coded_word b to_stdout wo a
