-- ===== src/Cma/Client.antt =====
-- `cma_init` of zynq_io.c over the driver that it calls.
use rp_ecosystem.Base.{
  ℕ, zero, suc, ◌<◌, ◌⊎◌, inl, inr, refl, ◌*◌, ◌%◌, ◌^◌, [], ◌∷◌, none, some, ◌==◌, if◌then◌else◌,
  ◌≡◌, arith,
}
use rp_ecosystem.Base.Int.{pos}
use rp_ecosystem.Zynq.Open.{Host, Mapping, Outcome, returned}
use rp_ecosystem.Zynq.Open
use rp_ecosystem.Cma.{
  Buffer, System, Request, Reply, Allocation, given, null, err_ptr, cma_alloc, allocate, cma_ioctl,
}
use rp_ecosystem.Cma.Ledger.{InStep, cma_free-Free}

-- A host whose `ioctl` is the driver's: a request that could not be answered in full leaves the
-- variable as it was.
abbrev served : Host → Reply → Host
served h r = record h {
  ioctl_result = r.rc;
  ioctl_size = elim r.written [ none ↦ 1024 * h.page_size % 2 ^ 32 | some v ↦ v ];
}

-- A request for a buffer of 1024 pages, with the bytes that the kernel could not copy from the program
-- and to it.
abbrev pub asked : Host → Allocation → ℕ → ℕ → Request
asked h allocation from_user to_user = record {
  cmd = cma_alloc;
  from_user = from_user;
  size = 1024 * h.page_size % 2 ^ 32;
  allocation = allocation;
  to_user = to_user;
}

-- A live buffer of 1024 pages, and `dev_size` its address on the bus if the driver could write it.
abbrev pub Served : Host → ℕ → Mapping → System → Type 0
Served h to_user m s =
    (b : Buffer) × (s.live ≡ b ∷ [])
    × (b.size ≡ 1024 * h.page_size % 2 ^ 32)
    × (m.dev_size ≡ (if to_user == 0 then b.dma % 2 ^ 32 else b.size))

-- The driver did nothing, and `dev_size` is still the size.
abbrev pub Unserved : Host → Mapping → System → System → Type 0
Unserved h m s s' = (s' ≡ s) × (m.dev_size ≡ 1024 * h.page_size % 2 ^ 32)

-- Whatever the allocator and the kernel's copies answer, when `cma_init` of a program returns 0 there
-- are two cases. Either the driver could read the size: then one buffer is live, of 1024 pages, and
-- `dev_size` is its address on the bus, if the driver could write it to the program's variable, and
-- still the size if it could not. Or it could not read the size: then it did nothing, and `dev_size`
-- is still the size, which the program takes for the address.
pub cma_init-buffer :
    (h : Host) (m m' : Mapping) (a : Allocation) (from_user to_user : ℕ) (s : System)
    → InStep s
    → Open.cma_init (served h (cma_ioctl (asked h a from_user to_user) s).1) m ≡ returned m' (pos 0)
    → ((from_user ≡ 0) × Served h to_user m' (cma_ioctl (asked h a from_user to_user) s).0)
      ⊎ ((0 < from_user) × Unserved h m' s (cma_ioctl (asked h a from_user to_user) s).0)
unfolding cma_ioctl allocate Open.cma_init
cma_init-buffer h m m' a (suc n) to_user s i e = inr (omega arith, (ground arith, ground arith))
cma_init-buffer h m m' (given cpu dma) zero to_user s i e =
    let (l, z, c, k) = cma_free-Free s i in
    let b : Buffer = record { cpu = cpu; size = 1024 * h.page_size % 2 ^ 32; dma = dma } in
    inl (refl, (b, ground arith, ground arith, ground arith))
cma_init-buffer h m m' null zero to_user s i e = absurd (ground arith)
cma_init-buffer h m m' (err_ptr k) zero to_user s i e = absurd (ground arith)
