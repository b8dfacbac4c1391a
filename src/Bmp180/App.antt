-- ===== src/Bmp180/App.antt =====
-- `main` of apps/rp_bmp180/test.c, over the life of the sensor object and its readings.
use rp_ecosystem.Base.{
  ◌>>=◌, >>=-eq-some, is_some, ℕ, zero, suc, ◌+◌, List, [], ◌∷◌, Option, none, some, ◌++◌, length,
  true, false, Bool, ◌&&◌, ◌≡◌, refl, arith,
}
use rp_ecosystem.Base.Int.{ℤ}
use rp_ecosystem.Base.Text.{codes}
use rp_ecosystem.Bmp180.Sensor.{Op, usleep, Bus, Eprom}
use rp_ecosystem.Bmp180.Copy.{
  app_read_eprom, app_read_raw_temperature, app_read_raw_pressure, app_temperature, app_pressure,
}
use rp_ecosystem.Bmp180.Lifecycle.{
  Store, Answers, Bmp180, set_up, open_device, bmp180_init, bmp180_close, bmp180_set_oss,
}
use rp_ecosystem.Bmp180.Resources.{Holds, bmp180_init-Outcome}

-- `bmp180_dump_eprom`; none for a null pointer.
unfoldable pub bmp180_dump_eprom : Option Bmp180 → Option Eprom
bmp180_dump_eprom none = none
bmp180_dump_eprom (some bmp) = some bmp.eprom

-- A printed line: the temperature in tenths of a degree, the pressure, and the pressure that the
-- altitude is computed from.
pub record Line : Type 0 where
  pub temperature : ℤ
  pub pressure : ℤ
  pub at_altitude : ℤ

-- What was done on the bus behind a call of `bmp180_pressure`.
unfoldable pub after_pressure : Bus → ℕ → List Op → List Op
after_pressure bus oss done =
    let done' = (app_read_raw_temperature bus done).1 in
    elim (app_read_raw_pressure bus oss done') [ none ↦ done' | some (up, done'') ↦ done'' ]

-- The body of the loop: the temperature, the pressure, the altitude, and two seconds of sleep; none
-- for a division by zero.
unfoldable pub round : Bus → Bmp180 → List Op → Option (Line × List Op)
unfolding after_pressure
round bus bmp done = do
  let after_t = (app_read_raw_temperature bus done).1
  let after_p = after_pressure bus bmp.oss after_t
  t ← app_temperature bus bmp.eprom done
  p ← app_pressure bus bmp.eprom bmp.oss after_t
  alt ← app_pressure bus bmp.eprom bmp.oss after_p
  some (
    record { temperature = t; pressure = p; at_altitude = alt },
    after_pressure bus bmp.oss after_p ++ usleep 2000000 ∷ [],
  )

-- The loop with the number of rounds to go.
unfoldable pub measure : ℕ → Bus → Bmp180 → List Op → Option (List Line)
measure zero bus bmp done = some []
measure (suc n) bus bmp done = do
  (line, done') ← round bus bmp done
  lines ← measure n bus bmp done'
  some (line ∷ lines)

-- How `main` ends: it reads through a null pointer, it divides by zero, or it returns with its lines.
pub data Exit : Type 0 where
  faulted : Exit
  trapped : Exit
  finished : List Line → Store → Exit

-- Behind the loop.
unfoldable pub close_after : Bmp180 → Store → Option (List Line) → Exit
close_after bmp s none = trapped
close_after bmp s (some lines) = finished lines (bmp180_close bmp s)

-- From the dump on, which does not test the sensor that it is given.
unfoldable pub run : Bus → Option Bmp180 → Store → Exit
unfolding bmp180_dump_eprom close_after
run bus sensor s = elim (bmp180_dump_eprom sensor) [
  | none ↦ faulted
  | some _ ↦ elim sensor [
    | none ↦ faulted
    | some bmp ↦ let bmp' = bmp180_set_oss 1 bmp in close_after bmp' s (measure 10 bus bmp' [])
  ]
]

-- `main`, on a sensor whose coefficients are those of the bus.
unfoldable pub main : Bus → Answers → Store → Exit
unfolding run
main bus a s =
    let a' = record a { eprom = app_read_eprom bus [] } in
    let (sensor, s') = bmp180_init 0x77 (codes "/dev/i2c-0") a' s in run bus sensor s'

-- The answers with which `bmp180_init` gives a sensor.
abbrev pub succeeds : Answers → Bool
succeeds a = a.object && (a.string && (is_some a.file && a.slave))

-- A program that ends in each of the three ways.
abbrev pub Ends : Answers → Store → Exit → Type 0
Ends a s faulted = succeeds a ≡ false
Ends a s trapped = succeeds a ≡ true
Ends a s (finished lines s') =
    (succeeds a ≡ true) × (length lines ≡ 10) × (s'.live ≡ s.live) × (s'.files ≡ s.files)

measure-length :
    (n : ℕ) (bus : Bus) (bmp : Bmp180) (done : List Op) (lines : List Line)
    → measure n bus bmp done ≡ some lines
    → length lines ≡ n
unfolding measure
measure-length zero bus bmp done lines h = ground arith
measure-length (suc n) bus bmp done lines h =
    let ((line, done'), e, h') = >>=-eq-some (round bus bmp done) _ h in
    let (rest, e', h'') = >>=-eq-some (measure n bus bmp done') _ h' in
    let ih = measure-length n bus bmp done' rest e' in ground (arith, ih)

close_after-Ends :
    (a : Answers) (bmp : Bmp180) (s s' : Store) (m : Option (List Line))
    → succeeds a ≡ true
    → Holds s bmp s'
    → ((lines : List Line) → m ≡ some lines → length lines ≡ 10)
    → Ends a s (close_after (bmp180_set_oss 1 bmp) s' m)
unfolding close_after
close_after-Ends a bmp s s' none h k l = h
close_after-Ends a bmp s s' (some lines) h (live, files, memory, closed) l =
    (h, l lines refl, memory 1, closed 1)

main-cases :
    (bus : Bus) (object string : Bool) (file : Option ℕ) (slave : Bool) (s : Store)
    → let a : Answers = record {
      object = object;
      string = string;
      file = file;
      slave = slave;
      eprom = app_read_eprom bus [];
    } in
      Ends a s (main bus a s)
unfolding main run bmp180_init open_device set_up
main-cases bus false string file slave s = refl
main-cases bus true false file slave s = refl
main-cases bus true true none slave s = refl
main-cases bus true true (some file) false s = refl
main-cases bus true true (some file) true s =
    let a : Answers = record {
      object = true;
      string = true;
      file = some file;
      slave = true;
      eprom = app_read_eprom bus [];
    } in
    let bmp : Bmp180 = record {
      block = s.next;
      i2c_device = s.next + 1;
      file = file;
      address = 0x77;
      oss = 0;
      eprom = app_read_eprom bus [];
    } in
    close_after-Ends a bmp s (bmp180_init 0x77 (codes "/dev/i2c-0") a s).1
      (measure 10 bus (bmp180_set_oss 1 bmp) []) refl
      (bmp180_init-Outcome 0x77 (codes "/dev/i2c-0") a s).0
      (measure-length 10 bus (bmp180_set_oss 1 bmp) [])

-- With a sensor, the program prints ten lines and gives back all memory and its file, unless it
-- divides by zero; without one, because an allocation, `open` or `ioctl` failed, it reads through a
-- null pointer, since the test for it comes behind the dump.
pub main-Ends : (bus : Bus) (a : Answers) (s : Store) → Ends a s (main bus a s)
unfolding main
main-Ends bus a s = main-cases bus a.object a.string a.file a.slave s
