-- ===== src/TinyGps/App.antt =====
-- The `main` loop of rp_gps.c: up to ten reads, until two sentences have been shown.
use rp_ecosystem.Base.{
  ℕ, zero, suc, ◌+◌, ◌-◌, ◌%◌, ◌^◌, ◌≤◌, ◌<◌, Bool, false, ◌≡◌, ◌⊎◌, arith, List, [], ◌∷◌, Option,
  none, some, ltb, ◌==◌, if◌then◌else◌,
}
use rp_ecosystem.TinyGps.State.{Gps}
use rp_ecosystem.TinyGps.Query.{DateTime, feed, gps_crack_datetime}

-- One `read`: the characters that it gave, with the clock at each, or none for a result of at most
-- zero; then the clock at which the date is taken.
pub record Read : Type 0 where
  pub chars : Option (List (ℕ × ℕ))
  pub clock : ℕ

-- The globals of rp_gps.c that the loop keeps; the float values are left out.
pub record App : Type 0 where
  pub gps : Gps
  pub newdata : Bool
  pub count : ℕ
  pub satellites : ℕ
  pub date : DateTime

-- The date in the time zone five hours behind: the program shows `hour - 5`.
unfoldable pub to_local : DateTime → DateTime
to_local d =
    if ltb d.hour 5
    then record d { hour = (24 + d.hour) % 2 ^ 8; day = (d.day + 2 ^ 8 - 1) % 2 ^ 8 }
    else d

-- The body of the `if (newdata)`.
unfoldable pub show : ℕ → App → App
show clock a =
    if a.newdata
    then record a {
      satellites = a.gps.fix.numsats;
      date = to_local (gps_crack_datetime clock a.gps);
      newdata = false;
      count = a.count + 1;
    }
    else a

-- One round of the loop.
unfoldable pub round : Read → App → App
round r a = elim r.chars [
  | none ↦ a
  | some chars ↦
      let (g, new) = feed chars (a.gps, a.newdata) in
      show r.clock (record a { gps = g; newdata = new })
]

-- The loop with `left` rounds before `aux` reaches ten; with no read left the device gives none.
-- The second part of the result is the number of rounds made.
unfoldable pub loop : ℕ → List Read → App → App × ℕ
loop zero reads a = (a, 0)
loop (suc left) [] a =
    let rest = loop left [] a in if a.count == 2 then (a, 0) else (rest.0, rest.1 + 1)
loop (suc left) (r ∷ reads) a =
    let rest = loop left reads (round r a) in if a.count == 2 then (a, 0) else (rest.0, rest.1 + 1)

-- `main`, from the start of its loop.
unfoldable pub main : List Read → App → App × ℕ
main reads a = loop 10 reads (record a { count = 0 })

round-count :
    (r : Read) (a : App) → (a.count ≤ (round r a).count) × ((round r a).count ≤ a.count + 1)
unfolding round show
round-count r a = ground arith

loop-ends :
    (left : ℕ) (reads : List Read) (a : App)
    → a.count ≤ 2
    → let (b, n) = loop left reads a in (n ≤ left) × (b.count ≤ 2) × ((b.count ≡ 2) ⊎ (n ≡ left))
unfolding loop
loop-ends zero reads a h = ground arith
loop-ends (suc left) [] a h = ground (arith, loop-ends left [] a)
loop-ends (suc left) (r ∷ reads) a h =
    ground (arith, loop-ends left reads (round r a), round-count r a)

-- The program makes at most ten reads, and ends with a count of at most two; it stops before the tenth
-- read only at a count of two.
main-ends :
    (reads : List Read) (a : App)
    → let (b, n) = main reads a in (n ≤ 10) × (b.count ≤ 2) × ((b.count ≡ 2) ⊎ (n ≡ 10))
unfolding main
main-ends reads a = loop-ends 10 reads (record a { count = 0 }) (omega arith)

-- For an hour below 24 and a day that is a byte above 0, the hour shown is the hour of the sentence
-- five hours earlier on the 24-hour clock, and the day goes back by one exactly when that crosses
-- midnight: on the first of a month it becomes 0.
pub to_local-hour :
    (d : DateTime)
    → d.hour < 24
    → d.day < 2 ^ 8
    → 0 < d.day
    → let r = to_local d in
      (r.hour - 5 ≡ (d.hour + 19) % 24)
      × (r.day ≡ (if ltb d.hour 5 then d.day - 1 else d.day))
      × (r.month ≡ d.month)
      × (r.year ≡ d.year)
unfolding to_local
to_local-hour d h k p = ground arith
