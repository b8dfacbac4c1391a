-- ===== src/Lago/Buffer.antt =====
-- `read_buffer` of lago.c: the part of the ring that a call reads, and the loop over it.
use rp_ecosystem.Base.{ℕ, zero, suc, ◌+◌, ◌-◌, ◌*◌, Bool, true, false, if◌then◌else◌}
use rp_ecosystem.Base.Int.{ℤ, pos, negsuc, ◌+ℤ◌, ltb_ℤ, eqb_ℤ, to_word}
use rp_ecosystem.Base.Calendar.{timegm, gmtime}
use rp_ecosystem.Zynq.Device.{Board, rd_cfg_status}
use rp_ecosystem.Lago.Acquisition.{Acq}
use rp_ecosystem.Lago.Words.{new_file, decode}

-- `limit`, the words of the whole memory.
abbrev pub limit : ℕ
limit = 1024 * 1024

-- `if (current==limit-2) current=-2;`.
unfoldable pub wrapped : ℤ → ℤ
wrapped current = if eqb_ℤ current (pos (limit - 2)) then negsuc 1 else current

-- `readinit` and `readend`.
unfoldable pub range : ℤ → ℕ → ℤ × ℕ
range current p =
    if ltb_ℤ current (pos p +ℤ pos 2)
    then (current +ℤ pos 2, p)
    else if ltb_ℤ (pos p) current
    then (current +ℤ pos 2, limit)
    else (pos 0, limit)

-- The loop over `n` words from index `i` on; `current = i` closes each round.
unfoldable pub read_words : Board → Bool → (ℕ → ℕ) → ℕ → ℕ → Acq → Acq
read_words b to_stdout ring zero i a = a
read_words b to_stdout ring (suc n) i a =
    read_words b to_stdout ring n (i + 1)
      (record (decode b to_stdout (ring i) a) { current = pos i })

-- The first call: the date of the computer, at time `now`, or a fixed date if there is a GPS.
unfoldable pub first_call : Board → Bool → ℕ → Acq → Acq
unfolding new_file
first_call b to_stdout now a =
    let no_gps = (rd_cfg_status b).no_gps in
    let fixed = timegm (record {
      tm_sec = 55;
      tm_min = 55;
      tm_hour = 10;
      tm_mday = 29;
      tm_mon = 8;
      tm_year = 2018;
    }) in
    let dated =
      (if no_gps
        then record a { file_time = now; file_date = gmtime now; false_gps = true }
        else record a { file_time = fixed; file_date = gmtime fixed }) in
    record (new_file b to_stdout dated) { f_first_time = false }

-- The numbers of the first word and of the word behind the last one, as the loop compares them.
unfoldable pub read_range : ℤ → ℕ → ℕ × ℕ
unfolding range wrapped
read_range current p =
    let c = wrapped current in
    let (init, end) = range c p in if eqb_ℤ c (pos p) then (0, 0) else (to_word 32 init, end)

-- `read_buffer`, with the writer at word `p` of the ring; `now` is the clock of the first call.
unfoldable pub read_buffer : Board → Bool → (ℕ → ℕ) → ℕ → ℕ → Acq → Acq
read_buffer b to_stdout ring now p a =
    let a' = (if a.f_first_time then first_call b to_stdout now a else a) in
    let (init, end) = read_range a'.current p in
    read_words b to_stdout ring (end - init) init (record a' { current = wrapped a'.current })
