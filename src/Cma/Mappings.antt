-- ===== src/Cma/Mappings.antt =====
-- The mappings of the processes against the live buffers.
use rp_ecosystem.Base.{ℕ, List, [], ◌∷◌, ◌≡◌, ◌≢◌, arith}
use rp_ecosystem.Base.Int.{ℤ, pos}
use rp_ecosystem.Cma.{
  Buffer, System, Call, ioctls, mmaps, releases, munmaps, Request, given, cma_alloc, cma_free,
  cpu_of, cma_ioctl, cma_mmap, cma_release, allocate, without, loaded, step, steps,
}
use rp_ecosystem.Cma.Ledger.{InStep, cma_free-Free, step-InStep}

-- Every mapping is of the live buffer.
abbrev pub AllOf : List Buffer → List (ℕ × Buffer) → Type 0
AllOf live [] = Unit
AllOf live ((f, b) ∷ maps) = (live ≡ b ∷ []) × AllOf live maps

abbrev pub Backed : System → Type 0
Backed s = AllOf s.live s.maps

-- While there is a mapping, no file is released and none asks for a buffer; and a mapping is made only
-- while a buffer is live.
abbrev pub Calm : Call → System → Type 0
Calm (ioctls file r) s = s.maps ≡ []
Calm (mmaps file rc) s = s.live ≢ []
Calm (releases file) s = s.maps ≡ []
Calm (munmaps file) s = Unit

abbrev pub Orderly : List Call → System → Type 0
Orderly [] s = Unit
Orderly (c ∷ cs) s = Calm c s × Orderly cs (step c s)

AllOf-without :
    (file : ℕ) (live : List Buffer) (maps : List (ℕ × Buffer))
    → AllOf live maps
    → AllOf live (without file maps)
unfolding without
AllOf-without file live [] h = tt
AllOf-without file live ((f, b) ∷ maps) (e, h) = ground (arith, AllOf-without file live maps h)

cma_ioctl-maps : (r : Request) (s : System) → InStep s → (cma_ioctl r s).0.maps ≡ s.maps
unfolding cma_ioctl allocate
cma_ioctl-maps r s h = let (a, b, c, d) = cma_free-Free s h in ground arith

cma_mmap-Backed :
    (file : ℕ) (rc : ℤ) (s : System)
    → InStep s
    → s.live ≢ []
    → Backed s
    → Backed (cma_mmap file rc s).0
unfolding cma_mmap cpu_of
cma_mmap-Backed file rc s (l, z) e h = ground arith

step-Backed : (c : Call) (s : System) → InStep s → Calm c s → Backed s → Backed (step c s)
unfolding step cma_mmap cma_release
step-Backed (ioctls file r) s i e h = rw (cma_ioctl-maps r s i, e) tt
step-Backed (mmaps file rc) s i e h = cma_mmap-Backed file rc s i e h
step-Backed (releases file) s i e h = let (a, b, c, d) = cma_free-Free s i in rw (d, e) tt
step-Backed (munmaps file) s i e h = AllOf-without file s.live s.maps h

-- As long as nobody asks for a buffer or closes the device while a mapping exists, and nobody maps the
-- device while no buffer is live, every mapping of every process is of the live buffer.
pub steps-Backed :
    (calls : List Call) (s : System)
    → InStep s
    → Backed s
    → Orderly calls s
    → Backed (steps calls s)
unfolding steps
steps-Backed [] s i h o = h
steps-Backed (c ∷ cs) s i h (e, o) =
    steps-Backed cs (step c s) (step-InStep c s i) (step-Backed c s i e h) o

-- Otherwise not: when a process has a buffer and has mapped it, the release of any other file frees
-- the buffer under the mapping.
pub release_dangling :
    (a b cpu dma size : ℕ)
    → let r : Request = record {
      cmd = cma_alloc;
      from_user = 0;
      size = size;
      allocation = given cpu dma;
      to_user = 0;
    } in
      let s = steps (ioctls a r ∷ mmaps a (pos 0) ∷ releases b ∷ []) loaded in
      (s.live ≡ []) × (s.maps ≡ (a, record { cpu = cpu; size = size; dma = dma }) ∷ [])
unfolding steps step cma_ioctl cma_mmap cma_release cma_free
release_dangling a b cpu dma size = ground arith

-- And a file that maps the device behind the release of the only buffer, which the module does not
-- refuse, has the freed memory mapped, if the kernel maps it.
pub mmap_freed :
    (a b cpu dma size : ℕ)
    → let r : Request = record {
      cmd = cma_alloc;
      from_user = 0;
      size = size;
      allocation = given cpu dma;
      to_user = 0;
    } in
      let s = steps (ioctls a r ∷ releases a ∷ mmaps b (pos 0) ∷ []) loaded in
      (s.live ≡ []) × (s.maps ≡ (b, record { cpu = 0; size = size; dma = dma }) ∷ [])
unfolding steps step cma_ioctl cma_mmap cma_release cma_free cpu_of
mmap_freed a b cpu dma size = ground arith
