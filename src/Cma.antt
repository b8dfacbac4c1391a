-- ===== src/Cma.antt =====
-- The kernel module patches/cma.c, by which a process allocates the buffer that the sample writer
-- fills. Of the kernel, the allocator's live buffers and the mappings are kept; what its functions
-- answer comes with each call.
pub mod Ledger
pub mod Mappings
pub mod Client
pub mod Tests
use rp_ecosystem.Base.{
  ℕ, zero, ◌+◌, ◌%◌, ◌^◌, Bool, ◌&&◌, List, [], ◌∷◌, Option, none, some, ◌==◌, if◌then◌else◌,
}
use rp_ecosystem.Base.Int.{ℤ, pos, negsuc}

-- `_IOWR('Z', 0, u32)`.
abbrev pub cma_alloc : ℕ
cma_alloc = 0xC0045A00

-- A buffer of the allocator: its address for the processor, its size and its address on the bus.
pub record Buffer : Type 0 where
  pub cpu : ℕ
  pub size : ℕ
  pub dma : ℕ

-- The static variables.
pub record Driver : Type 0 where
  pub dma_size : ℕ
  pub cpu_addr : Option ℕ
  pub dma_addr : ℕ

-- The driver, the live buffers, the frees of what is no live buffer, and the mappings with their file.
pub record System : Type 0 where
  pub driver : Driver
  pub live : List Buffer
  pub bad_frees : ℕ
  pub maps : List (ℕ × Buffer)

abbrev pub same : Buffer → Buffer → Bool
same a b = a.cpu == b.cpu && (a.size == b.size && a.dma == b.dma)

-- The live buffers without one of them; none if it is not live.
unfoldable pub removed : Buffer → List Buffer → Option (List Buffer)
removed b [] = none
removed b (x ∷ xs) =
    if same x b then some xs else (elim (removed b xs) [ none ↦ none | some ys ↦ some (x ∷ ys) ])

-- `dma_free_coherent`.
unfoldable pub dma_free_coherent : Buffer → System → System
unfolding removed
dma_free_coherent b s = elim (removed b s.live) [
  | none ↦ record s { bad_frees = s.bad_frees + 1 }
  | some live ↦ record s { live = live }
]

-- `cma_free`, by the address that the driver holds.
unfoldable pub cma_free_at : Option ℕ → System → System
unfolding dma_free_coherent
cma_free_at none s = s
cma_free_at (some cpu) s =
    let b : Buffer = record { cpu = cpu; size = s.driver.dma_size; dma = s.driver.dma_addr } in
    let s' = dma_free_coherent b s in
    record s' { driver = record { dma_size = b.size; cpu_addr = none; dma_addr = b.dma } }

unfoldable pub cma_free : System → System
unfolding cma_free_at
cma_free s = cma_free_at s.driver.cpu_addr s

-- What `dma_alloc_coherent` returns: the two addresses, NULL, or the error -(k + 1) as a pointer.
pub data Allocation : Type 0 where
  given : ℕ → ℕ → Allocation
  null : Allocation
  err_ptr : ℕ → Allocation

-- The argument of an `ioctl` and the kernel's answers to it: the bytes that `copy_from_user` and
-- `copy_to_user` could not copy, and the size that was read.
pub record Request : Type 0 where
  pub cmd : ℕ
  pub from_user : ℕ
  pub size : ℕ
  pub allocation : Allocation
  pub to_user : ℕ

-- The result of `cma_ioctl`, with what it left in the caller's variable, if it was written.
pub record Reply : Type 0 where
  pub rc : ℤ
  pub written : Option ℕ

-- `cma_ioctl` from `dma_alloc_coherent` on; a failed allocation leaves `dma_addr` as it was.
unfoldable pub allocate : Request → System → System × Reply
allocate r s = elim r.allocation [
  | given cpu dma ↦ (
    record s {
      driver = record { dma_size = r.size; cpu_addr = some cpu; dma_addr = dma };
      live = (record { cpu = cpu; size = r.size; dma = dma }) ∷ s.live;
    },
    record { rc = pos r.to_user; written = if r.to_user == 0 then some (dma % 2 ^ 32) else none },
  )
  | null ↦ (
    record s { driver = record s.driver { dma_size = r.size; cpu_addr = none } },
    record { rc = negsuc 11; written = none },
  )
  | err_ptr k ↦ (
    record s { driver = record s.driver { dma_size = r.size; cpu_addr = none } },
    record { rc = negsuc k; written = none },
  )
]

-- `cma_ioctl`; -25 is -ENOTTY, and -12 above is -ENOMEM.
unfoldable pub cma_ioctl : Request → System → System × Reply
unfolding cma_free allocate
cma_ioctl r s =
    if r.cmd == cma_alloc
    then (if r.from_user == 0
        then allocate r (cma_free s)
        else (s, record { rc = pos r.from_user; written = none }))
    else (s, record { rc = negsuc 24; written = none })

-- The address for the processor as a number; 0 is NULL.
unfoldable pub cpu_of : Option ℕ → ℕ
cpu_of none = 0
cpu_of (some cpu) = cpu

-- `cma_mmap` on a file, with what `dma_mmap_coherent` answers; with 0 it has mapped what the driver's
-- variables say, whether or not they still stand for a live buffer.
unfoldable pub cma_mmap : ℕ → ℤ → System → System × ℤ
unfolding cpu_of
cma_mmap file rc s = elim rc [
  | pos zero ↦ (
    record s {
      maps =
          (
            file,
            record {
              cpu = cpu_of s.driver.cpu_addr;
              size = s.driver.dma_size;
              dma = s.driver.dma_addr;
            },
          )
          ∷ s.maps;
    },
    pos zero,
  )
  | other ↦ (s, other)
]

-- `cma_release`, whatever file is released.
unfoldable pub cma_release : System → System × ℤ
unfolding cma_free
cma_release s = (cma_free s, pos 0)

-- `cma_exit`.
unfoldable pub cma_exit : System → System
unfolding cma_free
cma_exit s = cma_free s

-- The module as it is loaded.
abbrev pub loaded : System
loaded = record {
  driver = record { dma_size = 0; cpu_addr = none; dma_addr = 0 };
  live = [];
  bad_frees = 0;
  maps = [];
}

-- The calls that reach the module, and the end of a file's mappings, which does not.
pub data Call : Type 0 where
  ioctls : ℕ → Request → Call
  mmaps : ℕ → ℤ → Call
  releases : ℕ → Call
  munmaps : ℕ → Call

-- The mappings of the other files.
unfoldable pub without : ℕ → List (ℕ × Buffer) → List (ℕ × Buffer)
without file [] = []
without file ((f, b) ∷ maps) =
    let rest = without file maps in if f == file then rest else (f, b) ∷ rest

unfoldable pub step : Call → System → System
unfolding cma_ioctl cma_mmap cma_release without
step (ioctls file r) s = (cma_ioctl r s).0
step (mmaps file rc) s = (cma_mmap file rc s).0
step (releases file) s = (cma_release s).0
step (munmaps file) s = record s { maps = without file s.maps }

unfoldable pub steps : List Call → System → System
unfolding step
steps [] s = s
steps (c ∷ cs) s = steps cs (step c s)
