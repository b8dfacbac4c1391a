-- ===== src/Lago/Lost.antt =====
-- The count of lost pulses, and the date that a first call gives to the data.
use rp_ecosystem.Base.{
  ℕ, suc, ◌+◌, ◌-◌, ◌*◌, ◌^◌, ◌≤◌, ◌<◌, Bool, true, false, List, [], ◌∷◌, ◌≡◌, refl, sym, subst,
  ◌∙◌, ap, arith, length,
}
use rp_ecosystem.Base.Bits.{bit_and_mask}
use rp_ecosystem.Base.Int.{pos, ◌+ℤ◌, ◌-ℤ◌, signed, to_word}
use rp_ecosystem.Base.Calendar.{timegm, gmtime}
use rp_ecosystem.Zynq.Device.{Board, rd_cfg_status}
use rp_ecosystem.Lago.Acquisition.{Acq}
use rp_ecosystem.Lago.Words.{decode, counter_word, add_long, normalise}
use rp_ecosystem.Lago.Buffer.{first_call}

-- The words that carry a run of pulse counters.
unfoldable pub decode_counters : Board → Bool → List ℕ → Acq → Acq
decode_counters b o [] a = a
decode_counters b o (c ∷ cs) a = decode_counters b o cs (decode b o (2 * 2 ^ 30 + c) a)

-- Counters of 30 bits that grow.
abbrev pub Grows : ℕ → List ℕ → Type 0
Grows prev [] = Unit
Grows prev (c ∷ cs) = (prev < c) × (c < 2 ^ 30) × Grows c cs

abbrev pub last : ℕ → List ℕ → ℕ
last prev [] = prev
last prev (c ∷ cs) = last c cs

Grows-last : (prev : ℕ) (cs : List ℕ) → Grows prev cs → prev + length cs ≤ last prev cs
Grows-last prev [] h = omega arith
Grows-last prev (c ∷ cs) h = omega (arith, Grows-last c cs h.2)

decode-counter :
    (b : Board) (o : Bool) (c lost : ℕ) (a : Acq)
    → a.mtd_cdp ≡ pos lost
    → 0 < a.mtd_pulse_cnt
    → a.mtd_pulse_cnt < c
    → c < 2 ^ 30
    → lost + (c - a.mtd_pulse_cnt - 1) < 2 ^ 31
    → let a' = decode b o (2 * 2 ^ 30 + c) a in
      (a'.mtd_cdp ≡ pos (lost + (c - a.mtd_pulse_cnt - 1)))
      × (a'.mtd_pulse_cnt ≡ c)
      × (a'.mtd_pulse_pnt ≡ a.mtd_pulse_cnt)
unfolding decode counter_word add_long ◌+ℤ◌ ◌-ℤ◌ signed to_word
decode-counter b o c lost a e h g l n = ground (arith, bit_and_mask 30 (2 * 2 ^ 30 + c))

-- The numbers between the first counter and the last that no word carried.
abbrev pub missing : ℕ → List ℕ → ℕ
missing prev cs = last prev cs - prev - length cs

-- Over a run of growing pulse counters below 2 ^ 30, behind a first one that is not zero, the lost
-- pulses, as long as they stay below 2 ^ 31, grow by exactly the numbers between the first counter and
-- the last that no word carried.
pub decode_counters-lost :
    (b : Board) (o : Bool) (cs : List ℕ) (lost : ℕ) (a : Acq)
    → a.mtd_cdp ≡ pos lost
    → 0 < a.mtd_pulse_cnt
    → Grows a.mtd_pulse_cnt cs
    → lost + missing a.mtd_pulse_cnt cs < 2 ^ 31
    → let a' = decode_counters b o cs a in
      (a'.mtd_cdp ≡ pos (lost + missing a.mtd_pulse_cnt cs))
      × (a'.mtd_pulse_cnt ≡ last a.mtd_pulse_cnt cs)
unfolding decode_counters
decode_counters-lost b o [] lost a e h g n =
    let z : lost + (a.mtd_pulse_cnt - a.mtd_pulse_cnt - 0) ≡ lost = omega arith in (rw z e, refl)
decode_counters-lost b o (c ∷ cs) lost a e h g n =
    let a' = decode b o (2 * 2 ^ 30 + c) a in
    let grown = Grows-last c cs g.2 in
    let total : lost + (c - a.mtd_pulse_cnt - 1) + (last c cs - c - length cs)
        ≡ lost + (last c cs - a.mtd_pulse_cnt - suc (length cs)) =
      omega (arith, grown) in
    let (x, y, z) = decode-counter b o c lost a e h g.0 g.1 (omega (arith, grown)) in
    let (u, w) =
      decode_counters-lost b o cs (lost + (c - a.mtd_pulse_cnt - 1)) a' x (omega arith)
        (subst (λ t. Grows t cs) (sym y) g.2) (rw y (omega arith)) in
    (
      u ∙ ap (λ t. pos (lost + (c - a.mtd_pulse_cnt - 1) + missing t cs)) y ∙ ap (λ t. pos t) total,
      w ∙ ap (λ t. last t cs) y,
    )

-- With a GPS the first call asks for the year 2018 in a field that counts from 1900: the time does
-- not fit a `time_t`, and the data start on the last second of 1969, whatever the time is.
first_call-gps :
    (b : Board) (o : Bool) (now : ℕ) (a : Acq)
    → (rd_cfg_status b).no_gps ≡ false
    → (first_call b o now a).file_date
      ≡ record { tm_sec = 59; tm_min = 59; tm_hour = 23; tm_mday = 31; tm_mon = 11; tm_year = 69 }
unfolding first_call timegm gmtime normalise
first_call-gps b true now a h = rw h
first_call-gps b false now a h = rw h
