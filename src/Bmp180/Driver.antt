-- ===== src/Bmp180/Driver.antt =====
-- The life of the sensor in projects/lago_v1_3/src: `bmp180_init`, `bmp180_close` and
-- `bmp180_set_oss` of its bmp180.c, and what `main` of lago.c does with them.
use rp_ecosystem.Base.{
  ◌>>=◌, ℕ, ◌+◌, true, false, Bool, List, [], ◌∷◌, Option, none, some, Bytes, length, if◌then◌else◌,
  ◌≡◌, refl,
}
use rp_ecosystem.Base.Int.{ℤ}
use rp_ecosystem.Base.Text.{codes}
use rp_ecosystem.Bmp180.Sensor.{
  Op, Bus, Eprom, bmp180_read_eprom, bmp180_read_raw_temperature, bmp180_read_raw_pressure,
}
use rp_ecosystem.Bmp180.Compensation.{bmp180_temperature, bmp180_pressure}
use rp_ecosystem.Bmp180.Lifecycle.{
  Store, Answers, Bmp180, allocate, free, remove, strcpy, bmp180_init_error_cleanup, set_up,
  open_device, bmp180_init, bmp180_close, bmp180_set_oss,
}
use rp_ecosystem.Bmp180.Resources.{Holds, bmp180_init-Outcome}
use rp_ecosystem.Bmp180.App.{succeeds}

-- `bmp180_init_error_cleanup`.
unfoldable pub lago_error_cleanup : ℕ → Option ℕ → Store → Store
unfolding free
lago_error_cleanup block none s = free block s
lago_error_cleanup block (some device) s = free block (free device s)

-- `bmp180_init` from `bmp180_set_addr` on, from `open` on, and as a whole.
unfoldable pub lago_set_up : ℕ → ℕ → ℕ → ℕ → Answers → Store → Option Bmp180 × Store
unfolding lago_error_cleanup
lago_set_up block device file address answers s =
    if answers.slave
    then (
      some (record {
        block = block;
        i2c_device = device;
        file = file;
        address = address;
        oss = 0;
        eprom = answers.eprom;
      }),
      s,
    )
    else (none, lago_error_cleanup block (some device) s)

unfoldable pub lago_open_device : ℕ → ℕ → Option ℕ → ℕ → Answers → Store → Option Bmp180 × Store
unfolding lago_set_up lago_error_cleanup
lago_open_device block device none address answers s =
    (none, lago_error_cleanup block (some device) s)
lago_open_device block device (some file) address answers s =
    lago_set_up block device file address answers (record s { files = file ∷ s.files })

unfoldable pub lago_init : ℕ → Bytes → Answers → Store → Option Bmp180 × Store
unfolding allocate strcpy lago_open_device lago_error_cleanup
lago_init address path answers s =
    let s1 = allocate s in
    let s2 = allocate s1 in
    let s3 = strcpy path (length path) s2 in
    if answers.object
    then (if answers.string
        then lago_open_device s.next s1.next answers.file address answers s3
        else (none, lago_error_cleanup s.next none s1))
    else (none, s)

-- `bmp180_close` of a sensor.
unfoldable pub lago_close : Bmp180 → Store → Store
unfolding free remove
lago_close bmp s =
    let s1 = record s { files = remove bmp.file s.files } in free bmp.block (free bmp.i2c_device s1)

-- `bmp180_set_oss`.
unfoldable pub lago_set_oss : ℕ → Bmp180 → Bmp180
lago_set_oss oss bmp = record bmp { oss = oss }

-- `bmp180_dump_eprom`; none for a null pointer.
unfoldable pub lago_dump_eprom : Option Bmp180 → Option Eprom
lago_dump_eprom none = none
lago_dump_eprom (some bmp) = some bmp.eprom

-- `main` of lago.c up to the arguments: it faults, or goes on with a sensor in mode 1.
pub data Begun : Type 0 where
  faulted : Begun
  begun : Bmp180 → Store → Begun

unfoldable pub with_sensor : Option Bmp180 → Store → Begun
unfolding lago_dump_eprom lago_set_oss
with_sensor sensor s = elim (lago_dump_eprom sensor) [
  | none ↦ faulted
  | some _ ↦ elim sensor [ none ↦ faulted | some bmp ↦ begun (lago_set_oss 1 bmp) s ]
]

unfoldable pub begin_sensor : Bus → Answers → Store → Begun
unfolding lago_init with_sensor
begin_sensor bus a s =
    let a' = record a { eprom = bmp180_read_eprom bus [] } in
    let (sensor, s') = lago_init 0x77 (codes "/dev/i2c-0") a' s in with_sensor sensor s'

-- What `main` does for `-t`: the message that no device is present, a division by zero, or the
-- temperature, the pressure and the pressure of the altitude that it prints.
pub data Shown : Type 0 where
  no_device : Shown
  trapped : Shown
  shown : ℤ → ℤ → ℤ → Store → Shown

-- What was done on the bus behind a call of `bmp180_pressure`.
unfoldable pub behind_pressure : Bus → ℕ → List Op → List Op
behind_pressure bus oss done =
    let done' = (bmp180_read_raw_temperature bus done).1 in
    elim (bmp180_read_raw_pressure bus oss done') [ none ↦ done' | some (up, done'') ↦ done'' ]

unfoldable pub readings : Bus → Bmp180 → Option (ℤ × ℤ × ℤ)
unfolding behind_pressure
readings bus bmp = do
  let after_t = (bmp180_read_raw_temperature bus []).1
  t ← bmp180_temperature bus bmp.eprom []
  p ← bmp180_pressure bus bmp.eprom bmp.oss after_t
  alt ← bmp180_pressure bus bmp.eprom bmp.oss (behind_pressure bus bmp.oss after_t)
  some (t, p, alt)

-- The line and `bmp180_close`.
unfoldable pub show_and_close : Bmp180 → Store → Option (ℤ × ℤ × ℤ) → Shown
unfolding lago_close
show_and_close bmp s none = trapped
show_and_close bmp s (some (t, p, alt)) = shown t p alt (lago_close bmp s)

unfoldable pub show_pt : Bus → Option Bmp180 → Store → Shown
unfolding readings show_and_close
show_pt bus none s = no_device
show_pt bus (some bmp) s = show_and_close bmp s (readings bus bmp)

-- The two together, as `main` runs them for `-t`; what it does in between, the arguments and the other
-- devices, leaves the sensor alone and is taken to succeed.
unfoldable pub pt_main : Bus → Answers → Store → Option Shown
unfolding begin_sensor show_pt
pt_main bus a s = elim (begin_sensor bus a s) [
  | faulted ↦ none
  | begun bmp s' ↦ some (show_pt bus (some bmp) s')
]

-- The two copies of the driver do the same with the memory and the files.
lago_init-bmp180_init :
    (address : ℕ) (path : Bytes) (a : Answers) (s : Store)
    → lago_init address path a s ≡ bmp180_init address path a s
unfolding lago_init lago_open_device lago_set_up lago_error_cleanup bmp180_init open_device set_up
    bmp180_init_error_cleanup
lago_init-bmp180_init address path a s = refl

-- How `main` with `-t` may end: a fault, if `bmp180_init` has no sensor to give; a division by zero; or a
-- printed line, with the memory and the file given back.
abbrev pub Prints : Answers → Store → Option Shown → Type 0
Prints a s none = succeeds a ≡ false
Prints a s (some no_device) = ⊥
Prints a s (some trapped) = succeeds a ≡ true
Prints a s (some (shown t p alt s')) =
    (succeeds a ≡ true) × (s'.live ≡ s.live) × (s'.files ≡ s.files)

show_and_close-Prints :
    (a : Answers) (bmp : Bmp180) (s s' : Store) (m : Option (ℤ × ℤ × ℤ))
    → succeeds a ≡ true
    → Holds s bmp s'
    → Prints a s (some (show_and_close (lago_set_oss 1 bmp) s' m))
unfolding show_and_close lago_close lago_set_oss bmp180_close bmp180_set_oss
show_and_close-Prints a bmp s s' none h k = h
show_and_close-Prints a bmp s s' (some (t, p, alt)) h (live, files, memory, closed) =
    (h, memory 1, closed 1)

pt_main-cases :
    (bus : Bus) (object string : Bool) (file : Option ℕ) (slave : Bool) (s : Store)
    → let a : Answers = record {
      object = object;
      string = string;
      file = file;
      slave = slave;
      eprom = bmp180_read_eprom bus [];
    } in
      Prints a s (pt_main bus a s)
unfolding pt_main begin_sensor with_sensor lago_init lago_open_device lago_set_up lago_dump_eprom
    bmp180_init show_pt
pt_main-cases bus false string file slave s = refl
pt_main-cases bus true false file slave s = refl
pt_main-cases bus true true none slave s = refl
pt_main-cases bus true true (some file) false s = refl
pt_main-cases bus true true (some file) true s =
    let a : Answers = record {
      object = true;
      string = true;
      file = some file;
      slave = true;
      eprom = bmp180_read_eprom bus [];
    } in
    let bmp : Bmp180 = record {
      block = s.next;
      i2c_device = s.next + 1;
      file = file;
      address = 0x77;
      oss = 0;
      eprom = bmp180_read_eprom bus [];
    } in
    show_and_close-Prints a bmp s (bmp180_init 0x77 (codes "/dev/i2c-0") a s).1
      (readings bus (lago_set_oss 1 bmp)) refl (bmp180_init-Outcome 0x77 (codes "/dev/i2c-0") a s).0

-- On every bus, where the other devices open: with a sensor, lago's `-t` prints one line and gives
-- back all memory and its file, unless it divides by zero; without one it faults at the start, so
-- that its message that no device is present is never printed.
pub pt_main-Prints : (bus : Bus) (a : Answers) (s : Store) → Prints a s (pt_main bus a s)
unfolding pt_main begin_sensor
pt_main-Prints bus a s = pt_main-cases bus a.object a.string a.file a.slave s
