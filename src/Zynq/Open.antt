-- ===== src/Zynq/Open.antt =====
-- The functions of zynq_io.c that open and map a device. What the system answers is a record; the
-- names of the device files are left out.
use rp_ecosystem.Base.{ℕ, ◌*◌, ◌%◌, ◌^◌, false, if◌then◌else◌, ◌≡◌, ◌≢◌, Option, none, some, arith}
use rp_ecosystem.Base.Int.{ℤ, pos, negsuc, ltb_ℤ}

-- The answers of `open`, of the size file (none if it cannot be read), of `mmap` (none for
-- MAP_FAILED), of `ioctl` and its `dev_size`, and the page size.
pub record Host : Type 0 where
  pub opened : ℤ
  pub map_size : Option ℕ
  pub mapped : Option ℕ
  pub ioctl_result : ℤ
  pub ioctl_size : ℕ
  pub page_size : ℕ

-- The globals that an `_init` function sets; an unset pointer is none.
pub record Mapping : Type 0 where
  pub fd : ℤ
  pub ptr : Option ℕ
  pub dev_size : ℕ

-- The result of a call: the globals with a return value, or an exit of the process.
pub data Outcome {ℓ} (A : Type ℓ) : Type ℓ where
  returned : A → ℤ → Outcome A
  exits : Outcome A

-- `mmap` and the test behind it.
unfoldable pub map_device : Host → Mapping → Outcome Mapping
map_device h m = elim h.mapped [
  | none ↦ returned (record m { ptr = none }) (negsuc 0)
  | some p ↦ returned (record m { ptr = some p }) (pos 0)
]

-- `get_memory_size`, whose failures end the process, and the mapping that follows it.
unfoldable pub size_and_map : Host → Mapping → Outcome Mapping
unfolding map_device
size_and_map h m = elim h.map_size [
  | none ↦ exits
  | some size ↦ map_device h (record m { dev_size = size })
]

-- `intc_init`, `cfg_init`, `sts_init` and `xadc_init`, which differ in their globals and files.
unfoldable pub uio_init : Host → Mapping → Outcome Mapping
unfolding size_and_map
uio_init h m =
    let m' = record m { fd = h.opened } in
    if ltb_ℤ h.opened (pos 1) then returned m' (negsuc 0) else size_and_map h m'

-- `mem_init`.
unfoldable pub mem_init : Host → Mapping → Outcome Mapping
unfolding map_device
mem_init h m =
    let m' = record m { fd = h.opened } in
    if ltb_ℤ h.opened (pos 1)
    then returned m' (negsuc 0)
    else map_device h (record m' { dev_size = 2048 * h.page_size % 2 ^ 32 })

-- `hst0_init` and `hst1_init`.
unfoldable pub hst_init : Host → Mapping → Outcome Mapping
unfolding map_device
hst_init h m =
    let m' = record m { fd = h.opened } in
    if ltb_ℤ h.opened (pos 1) then returned m' (negsuc 0) else map_device h m'

-- `cma_init`: the driver replaces `dev_size` by the address of the buffer.
unfoldable pub cma_init : Host → Mapping → Outcome Mapping
unfolding map_device
cma_init h m =
    let m' = record m { fd = h.opened } in
    if ltb_ℤ h.opened (pos 1)
    then returned m' (negsuc 0)
    else (let asked = record m' { dev_size = 1024 * h.page_size % 2 ^ 32 } in
        if ltb_ℤ h.ioctl_result (pos 0)
        then returned asked (pos 1)
        else map_device h (record asked { dev_size = h.ioctl_size }))

-- An `_init` function of a UIO device returns 0 only if the file opened with a positive
-- descriptor, its size was read and it was mapped; its globals are then those answers.
pub uio_init-ok :
    (h : Host) (m m' : Mapping)
    → uio_init h m ≡ returned m' (pos 0)
    → (ltb_ℤ h.opened (pos 1) ≡ false)
      × (h.map_size ≡ some m'.dev_size)
      × (h.mapped ≡ m'.ptr)
      × (m'.ptr ≢ none)
      × (m'.fd ≡ h.opened)
unfolding uio_init
uio_init-ok h m m' e = ground arith

-- After a successful `cma_init`, `dev_size` is what the driver answered, the address that `main`
-- writes to the writer's register, and no longer a size.
pub cma_init-address :
    (h : Host) (m m' : Mapping)
    → cma_init h m ≡ returned m' (pos 0)
    → (m'.dev_size ≡ h.ioctl_size) × (ltb_ℤ h.ioctl_result (pos 0) ≡ false) × (m'.ptr ≡ h.mapped)
unfolding cma_init
cma_init-address h m m' e = ground arith
