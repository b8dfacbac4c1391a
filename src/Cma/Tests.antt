-- ===== src/Cma/Tests.antt =====
-- The theorems of the buffer driver at concrete calls.
use rp_ecosystem.Base.{ℕ, ◌<◌, ◌⊎◌, List, [], ◌∷◌, none, some, ◌≡◌, refl}
use rp_ecosystem.Base.Int.{pos}
use rp_ecosystem.Zynq.Open.{Host, Mapping, returned}
use rp_ecosystem.Zynq.Open
use rp_ecosystem.Cma.{
  Call, ioctls, mmaps, releases, munmaps, Request, given, cma_alloc, cma_ioctl, cma_exit, loaded,
  steps, step,
}
use rp_ecosystem.Cma.Ledger.{InStep, steps-InStep}
use rp_ecosystem.Cma.Mappings.{Backed, steps-Backed}
use rp_ecosystem.Cma.Client.{asked, Served, Unserved, cma_init-buffer}

abbrev request : ℕ → Request
request cpu = record {
  cmd = cma_alloc;
  from_user = 0;
  size = 4096;
  allocation = given cpu 0x1E000000;
  to_user = 0;
}

-- Two files ask in turn, and the first is released.
abbrev calls : List Call
calls = ioctls 1 (request 64) ∷ mmaps 1 (pos 0) ∷ ioctls 2 (request 65) ∷ releases 1 ∷ []

steps-InStep_example :
    let s' = steps calls loaded in
    InStep s' × ((cma_exit s').live ≡ []) × ((cma_exit s').bad_frees ≡ 0)
steps-InStep_example = steps-InStep calls loaded (refl, refl)

-- One file asks, maps the buffer, unmaps it and is released.
abbrev session : List Call
session = ioctls 1 (request 64) ∷ mmaps 1 (pos 0) ∷ munmaps 1 ∷ releases 1 ∷ []

steps-Backed_example : Backed (steps session loaded)
unfolding step
steps-Backed_example =
    steps-Backed session loaded (refl, refl) tt (refl, ((λ e. cc), (tt, (refl, tt))))

abbrev host : Host
host = record {
  opened = pos 3;
  map_size = none;
  mapped = some 0x7000;
  ioctl_result = pos 0;
  ioctl_size = 0;
  page_size = 4096;
}

abbrev unset : Mapping
unset = record { fd = pos 0; ptr = none; dev_size = 0 }

abbrev copied : ℕ
copied = 0

abbrev opened : Mapping
opened = record { fd = pos 3; ptr = some 0x7000; dev_size = 0x1E000000 }

cma_init-buffer_example :
    let r = asked host (given 64 0x1E000000) 0 0 in
    ((copied ≡ 0) × Served host 0 opened (cma_ioctl r loaded).0)
    ⊎ ((0 < copied) × Unserved host opened loaded (cma_ioctl r loaded).0)
unfolding cma_ioctl Open.cma_init
cma_init-buffer_example =
    cma_init-buffer host unset opened (given 64 0x1E000000) 0 0 loaded (refl, refl) refl
