-- ===== src/Bmp180/Lifecycle.antt =====
-- `bmp180_init`, `bmp180_init_error_cleanup`, `bmp180_close` and `bmp180_set_oss` of
-- apps/rp_bmp180/bmp180.c: the memory and the files that the driver holds.
use rp_ecosystem.Base.{
  ℕ, ◌+◌, ◌-◌, Bool, List, [], ◌∷◌, Option, none, some, Bytes, length, ◌==◌, if◌then◌else◌,
}
use rp_ecosystem.Bmp180.Sensor.{Eprom}

-- The process's resources: the number of the next block of memory, the live blocks and the open
-- files, the newest first, and the bytes that were written behind the end of a block.
pub record Store : Type 0 where
  pub next : ℕ
  pub live : List ℕ
  pub files : List ℕ
  pub overrun : ℕ

-- What the calls of `bmp180_init` answer: whether the two `malloc` succeed, the file that `open`
-- gives, whether `ioctl` succeeds, and the coefficients that the sensor then holds.
pub record Answers : Type 0 where
  pub object : Bool
  pub string : Bool
  pub file : Option ℕ
  pub slave : Bool
  pub eprom : Eprom

-- `bmp180_t`, at its block, with the block of `i2c_device`.
pub record Bmp180 : Type 0 where
  pub block : ℕ
  pub i2c_device : ℕ
  pub file : ℕ
  pub address : ℕ
  pub oss : ℕ
  pub eprom : Eprom

-- `malloc` where there is memory.
unfoldable pub allocate : Store → Store
allocate s = record s { next = s.next + 1; live = s.next ∷ s.live }

-- `free` of a block, and `close` of a file: it is no longer among the live ones.
unfoldable pub remove : ℕ → List ℕ → List ℕ
remove b [] = []
remove b (x ∷ xs) = let rest = remove b xs in if x == b then xs else x ∷ rest

unfoldable pub free : ℕ → Store → Store
unfolding remove
free b s = record s { live = remove b s.live }

-- `strcpy` of a path with its NUL byte, into a block of a size.
unfoldable pub strcpy : Bytes → ℕ → Store → Store
strcpy path size s = record s { overrun = s.overrun + (length path + 1 - size) }

-- `bmp180_init_error_cleanup`, with the block of the path if there is one.
unfoldable pub bmp180_init_error_cleanup : ℕ → Option ℕ → Store → Store
unfolding free
bmp180_init_error_cleanup block none s = free block s
bmp180_init_error_cleanup block (some device) s = free block (free device s)

-- From `bmp180_set_addr` on, with the file open.
unfoldable pub set_up : ℕ → ℕ → ℕ → ℕ → Answers → Store → Option Bmp180 × Store
unfolding bmp180_init_error_cleanup
set_up block device file address answers s =
    if answers.slave
    then (
      some (record {
        block = block;
        i2c_device = device;
        file = file;
        address = address;
        oss = 0;
        eprom = answers.eprom;
      }),
      s,
    )
    else (none, bmp180_init_error_cleanup block (some device) s)

-- From `open` on, with the path copied.
unfoldable pub open_device : ℕ → ℕ → Option ℕ → ℕ → Answers → Store → Option Bmp180 × Store
unfolding set_up bmp180_init_error_cleanup
open_device block device none address answers s =
    (none, bmp180_init_error_cleanup block (some device) s)
open_device block device (some file) address answers s =
    set_up block device file address answers (record s { files = file ∷ s.files })

-- `bmp180_init`.
unfoldable pub bmp180_init : ℕ → Bytes → Answers → Store → Option Bmp180 × Store
unfolding allocate strcpy open_device bmp180_init_error_cleanup
bmp180_init address path answers s =
    let s1 = allocate s in
    let s2 = allocate s1 in
    let s3 = strcpy path (length path) s2 in
    if answers.object
    then (if answers.string
        then open_device s.next s1.next answers.file address answers s3
        else (none, bmp180_init_error_cleanup s.next none s1))
    else (none, s)

-- `bmp180_close` of a sensor.
unfoldable pub bmp180_close : Bmp180 → Store → Store
unfolding free remove
bmp180_close bmp s =
    let s1 = record s { files = remove bmp.file s.files } in free bmp.block (free bmp.i2c_device s1)

-- `bmp180_set_oss`.
unfoldable pub bmp180_set_oss : ℕ → Bmp180 → Bmp180
bmp180_set_oss oss bmp = record bmp { oss = oss }
