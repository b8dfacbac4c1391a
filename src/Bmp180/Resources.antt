-- ===== src/Bmp180/Resources.antt =====
-- What `bmp180_init` and `bmp180_close` leave allocated and open.
use rp_ecosystem.Base.{
  ℕ, ◌+◌, Bool, true, false, ◌&&◌, List, ◌∷◌, Option, none, some, Bytes, if◌then◌else◌, ◌≡◌, refl,
  arith,
}
use rp_ecosystem.Bmp180.Sensor.{Eprom}
use rp_ecosystem.Bmp180.Lifecycle.{
  Store, Answers, Bmp180, remove, free, bmp180_init_error_cleanup, set_up, open_device, bmp180_init,
  bmp180_close, bmp180_set_oss,
}

-- The file that is open though the result is an error.
abbrev pub left_open : Option ℕ → List ℕ → List ℕ
left_open none files = files
left_open (some file) files = file ∷ files

-- A failure of `bmp180_init`: each block that it allocated is free again; a file that it opened
-- before the failure stays open.
abbrev pub Fails : Answers → Store → Store → Type 0
Fails a s s' =
    (s'.live ≡ s.live)
    × (s'.files
        ≡ (if a.object then if a.string then left_open a.file s.files else s.files else s.files))

-- A success: the two blocks and the file are held, and `bmp180_close` gives them back, in whatever
-- mode the sensor is then.
abbrev pub Holds : Store → Bmp180 → Store → Type 0
Holds s bmp s' =
    (s'.live ≡ bmp.i2c_device ∷ bmp.block ∷ s.live)
    × (s'.files ≡ bmp.file ∷ s.files)
    × ((oss : ℕ) → (bmp180_close (bmp180_set_oss oss bmp) s').live ≡ s.live)
    × ((oss : ℕ) → (bmp180_close (bmp180_set_oss oss bmp) s').files ≡ s.files)

abbrev pub Outcome : Answers → Store → Option Bmp180 → Store → Type 0
Outcome a s none s' = Fails a s s'
Outcome a s (some bmp) s' = Holds s bmp s'

init-cases :
    (address : ℕ) (path : Bytes) (object string : Bool) (file : Option ℕ) (slave : Bool)
    (eprom : Eprom) (s : Store)
    → let a : Answers = record {
      object = object;
      string = string;
      file = file;
      slave = slave;
      eprom = eprom;
    } in
      let r = bmp180_init address path a s in
      Outcome a s r.0 r.1 × (r.1.overrun ≡ (if object && string then s.overrun + 1 else s.overrun))
unfolding bmp180_init open_device set_up bmp180_init_error_cleanup free remove bmp180_close
    bmp180_set_oss
init-cases address path false string file slave eprom s = ((refl, refl), refl)
init-cases address path true false file slave eprom s = ((ground arith, refl), refl)
init-cases address path true true none slave eprom s = ((ground arith, refl), omega arith)
init-cases address path true true (some file) false eprom s = ((ground arith, refl), omega arith)
init-cases address path true true (some file) true eprom s =
    ((refl, refl, λ oss. ground arith, λ oss. ground arith), omega arith)

-- `bmp180_init` in all its branches: an error frees the memory and leaves the file open that it
-- opened, if any; a sensor holds its two blocks and its file, and closing it gives all three back,
-- whatever mode was set. Where both allocations succeed, one byte is written behind a block.
pub bmp180_init-Outcome :
    (address : ℕ) (path : Bytes) (a : Answers) (s : Store)
    → let r = bmp180_init address path a s in
      Outcome a s r.0 r.1
      × (r.1.overrun ≡ (if a.object && a.string then s.overrun + 1 else s.overrun))
bmp180_init-Outcome address path a s =
    init-cases address path a.object a.string a.file a.slave a.eprom s
