-- ===== src/Cma/Ledger.antt =====
-- The driver's variables against the allocator's live buffers.
use rp_ecosystem.Base.{ℕ, List, [], ◌∷◌, Option, none, some, ◌≡◌, refl, arith}
use rp_ecosystem.Cma.{
  Buffer, Driver, System, Call, ioctls, mmaps, releases, munmaps, Request, removed, cma_free,
  cma_free_at, dma_free_coherent, allocate, cma_ioctl, cma_mmap, cma_release, cma_exit, step, steps,
}

-- The buffer that the driver holds, if any, with the size and the address that it would free it by.
abbrev held_at : Option ℕ → ℕ → ℕ → List Buffer
held_at none size dma = []
held_at (some cpu) size dma = (record { cpu = cpu; size = size; dma = dma }) ∷ []

abbrev pub held : Driver → List Buffer
held d = held_at d.cpu_addr d.dma_size d.dma_addr

-- The live buffers are the one that the driver holds, and nothing else was ever freed.
abbrev pub InStep : System → Type 0
InStep s = (s.live ≡ held s.driver) × (s.bad_frees ≡ 0)

cma_free_at-Free :
    (o : Option ℕ) (s : System)
    → s.live ≡ held_at o s.driver.dma_size s.driver.dma_addr
    → s.bad_frees ≡ 0
    → s.driver.cpu_addr ≡ o
    → ((cma_free_at o s).live ≡ [])
      × ((cma_free_at o s).bad_frees ≡ 0)
      × ((cma_free_at o s).driver.cpu_addr ≡ none)
      × ((cma_free_at o s).maps ≡ s.maps)
unfolding cma_free_at dma_free_coherent removed
cma_free_at-Free none s e z h = (e, z, h, refl)
cma_free_at-Free (some cpu) s e z h = ground arith

pub cma_free-Free :
    (s : System)
    → InStep s
    → ((cma_free s).live ≡ [])
      × ((cma_free s).bad_frees ≡ 0)
      × ((cma_free s).driver.cpu_addr ≡ none)
      × ((cma_free s).maps ≡ s.maps)
unfolding cma_free
cma_free-Free s (e, z) = cma_free_at-Free s.driver.cpu_addr s e z refl

cma_free-InStep : (s : System) → InStep s → InStep (cma_free s)
cma_free-InStep s h = let (a, b, c, d) = cma_free-Free s h in ground arith

allocate-InStep :
    (r : Request) (s : System) → s.live ≡ [] → s.bad_frees ≡ 0 → InStep (allocate r s).0
unfolding allocate
allocate-InStep r s e z = ground arith

pub cma_ioctl-InStep : (r : Request) (s : System) → InStep s → InStep (cma_ioctl r s).0
unfolding cma_ioctl
cma_ioctl-InStep r s h =
    let (a, b, c, d) = cma_free-Free s h in ground (arith, allocate-InStep r (cma_free s) a b)

pub step-InStep : (c : Call) (s : System) → InStep s → InStep (step c s)
unfolding step cma_release cma_mmap
step-InStep (ioctls file r) s h = cma_ioctl-InStep r s h
step-InStep (mmaps file rc) s h = ground arith
step-InStep (releases file) s h = cma_free-InStep s h
step-InStep (munmaps file) s h = h

-- In whatever order the calls of whatever files reach the module, and whatever the kernel answers, the
-- live buffers are the one that the driver holds, if any; each was freed with the size and the
-- addresses of its allocation and once; and when the module is removed none is left.
pub steps-InStep :
    (calls : List Call) (s : System)
    → InStep s
    → let s' = steps calls s in
      InStep s' × ((cma_exit s').live ≡ []) × ((cma_exit s').bad_frees ≡ 0)
unfolding steps cma_exit
steps-InStep [] s h = let (a, b, c, d) = cma_free-Free s h in (h, a, b)
steps-InStep (c ∷ cs) s h = steps-InStep cs (step c s) (step-InStep c s h)
