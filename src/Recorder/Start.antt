-- ===== src/Recorder/Start.antt =====
-- `main` of the recorders over zynq_io.c, from the opening of the devices to the last line printed.
-- None of them tests what an `_init` returned.
use rp_ecosystem.Base.{ℕ, ◌*◌, List, Option, none, some}
use rp_ecosystem.Zynq.Open.{Host, Mapping, Outcome, returned, exits}
use rp_ecosystem.Zynq.Registers.{Device}
use rp_ecosystem.Recorder.Memory.{
  Ram, Line, CounterLine, uio_lines, recorder_lines, old_lines, counter_lines,
}
use rp_ecosystem.Recorder.Setup.{uio_setup, recorder_setup, old_setup, counter_setup, counter_stop}
use rp_ecosystem.Recorder.Open.{
  unset, uio_cfg_init, uio_cma_init, recorder_cfg_init, recorder_cma_init, counter_cfg_init,
  counter_sts_init, counter_cma_init, old_mem_init, old_cfg_init,
}

-- How a program ends, each with the registers that it leaves: by `exit` in `get_memory_size`, by an
-- access through a null pointer or MAP_FAILED, or after its lines.
pub data Ending {ℓ} (A : Type ℓ) : Type ℓ where
  exited : Ending A
  faulted : Device → Ending A
  finished : Device → List A → Ending A

-- An `_init` whose result is not tested, and what follows it.
unfoldable pub after {ℓ} : {A : Type ℓ} → Outcome Mapping → (Mapping → Ending A) → Ending A
after exits next = exited
after (returned m r) next = next m

-- The first access to the configuration, the setup, and the access to the buffer that follows it.
unfoldable pub through {ℓ} :
    {A : Type ℓ} → Option ℕ → (Device → Device) → (Device → Ending A) → Device → Ending A
through none setup next cfg = faulted cfg
through (some p) setup next cfg = next (setup cfg)

unfoldable pub printing {ℓ} :
    {A : Type ℓ} → Option ℕ → (Device → Device) → List A → Device → Ending A
printing none stop lines cfg = faulted cfg
printing (some p) stop lines cfg = finished (stop cfg) lines

-- `main` of adc_recorder_uio: what the system answers for the configuration and for the buffer, the
-- registers, and the buffer's bytes when they are printed.
unfoldable pub uio_main : Host → Host → Device → Ram → Ending Line
unfolding after through printing
uio_main hc ha cfg ram = after (uio_cfg_init hc (unset 0)) (λ c.
    after (uio_cma_init ha (unset c.dev_size)) (λ a.
      through c.ptr (uio_setup a.dev_size) (printing a.ptr (λ d. d) (uio_lines ram 0 (1024 * 1024)))
        cfg))

-- `main` of adc_recorder.
unfoldable pub recorder_main : Host → Host → Device → Ram → Ending Line
unfolding after through printing
recorder_main hc ha cfg ram = after (recorder_cfg_init hc (unset 0)) (λ c.
    after (recorder_cma_init ha (unset c.dev_size)) (λ a.
      through c.ptr (recorder_setup a.dev_size)
        (printing a.ptr (λ d. d) (recorder_lines ram 0 (1024 * 1024))) cfg))

-- A pointer behind another: null if the first is.
unfoldable pub both : Option ℕ → Option ℕ → Option ℕ
both none q = none
both (some p) q = q

-- `main` of counter_test, with the status device between the two and a second mapping.
unfoldable pub counter_main : Host → Host → Host → Option ℕ → Device → Ram → Ending CounterLine
unfolding after through printing both
counter_main hc hs ha again cfg ram = after (counter_cfg_init hc (unset 0)) (λ c.
    after (counter_sts_init hs (unset c.dev_size)) (λ s.
      let (opened, ptr2) = counter_cma_init ha again (unset s.dev_size) in
      after opened (λ a.
        through c.ptr (counter_setup a.dev_size)
          (printing (both a.ptr ptr2) counter_stop (counter_lines ram 0 (2 * 65536))) cfg)))

-- `main` of adc_recorder_old, which opens its buffer first.
unfoldable pub old_main : Host → Host → Device → Ram → Ending Line
unfolding after through printing
old_main hm hc cfg ram = after (old_mem_init hm (unset 0)) (λ m.
    after (old_cfg_init hc (unset m.dev_size))
      (λ c. through c.ptr old_setup (printing m.ptr (λ d. d) (old_lines ram 0 (1024 * 1024))) cfg))
