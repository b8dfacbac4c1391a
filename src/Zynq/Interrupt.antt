-- ===== src/Zynq/Interrupt.antt =====
-- The registers that `init_system` sets, and the interrupt controller.
use rp_ecosystem.Base.{
  ℕ, ◌*◌, ◌<◌, max, Bool, true, ◌&&◌, ◌||◌, ◌==◌, if◌then◌else◌, ◌≡◌, ◌≢◌, refl, arith,
}
use rp_ecosystem.Base.Bits.{bit, bit-bit_or, all_below, bit_table}
use rp_ecosystem.Zynq.Registers.{
  Device, dev_read, cfg_nsamples_offset, cfg_trlvl_1_offset, cfg_trlvl_2_offset,
  cfg_strlvl_1_offset, cfg_strlvl_2_offset, cfg_hv1_offset, cfg_hv2_offset, cfg_tr_scal_a_offset,
  cfg_tr_scal_b_offset, xil_axi_intc_ier_offset, xil_axi_intc_mer_offset, xil_axi_intc_iar_offset,
}
use rp_ecosystem.Zynq.System.{not32, init_system, enable_interrupt, disable_interrupt}

abbrev is_trigger_level : ℕ → Bool
is_trigger_level o =
    o == cfg_trlvl_1_offset
    || o == cfg_trlvl_2_offset
    || o == cfg_strlvl_1_offset
    || o == cfg_strlvl_2_offset

-- The value that `init_system` gives to a register other than the reset register.
unfoldable pub default_of : ℕ → ℕ → ℕ
default_of o old =
    if is_trigger_level o
    then 8190
    else if o == cfg_hv1_offset || o == cfg_hv2_offset
    then 0
    else if o == cfg_nsamples_offset
    then 1024 * 1024
    else if o == cfg_tr_scal_a_offset || o == cfg_tr_scal_b_offset
    then 1
    else old

-- `init_system` gives every register other than the reset register its default, whatever it held,
-- and leaves the registers that have no default alone.
pub init_system-default :
    (cfg : Device) (o : ℕ) → o ≢ 0 → dev_read (init_system cfg) o ≡ default_of o (dev_read cfg o)
unfolding init_system default_of
init_system-default cfg o h = ground arith

mer_table :
    all_below 32 (λ i.
      let want = λ (b : ℕ). if i == 0 then b else 1 in
      max 0 (bit (not32 1) i) == want 0 && max 1 (bit (not32 1) i) == want 1)
    ≡ true
unfolding all_below
mer_table = refl

-- `disable_interrupt` clears the interrupt enable register and acknowledges line 0, but leaves the
-- master enable bit (bit 0 of the MER) as it was and sets all the others: its mask is `value | ~1`
-- where `value & ~1` would clear that bit.
pub disable_interrupt-mer :
    (intc : Device) (k : ℕ)
    → k < 32
    → let i = disable_interrupt intc in
      (dev_read i xil_axi_intc_ier_offset ≡ 0)
      × (dev_read i xil_axi_intc_iar_offset ≡ 1)
      × (bit (dev_read i xil_axi_intc_mer_offset) k
          ≡ (if k == 0 then bit (dev_read intc xil_axi_intc_mer_offset) k else 1))
unfolding disable_interrupt
disable_interrupt-mer intc k h = (
  refl,
  refl,
  simp bit-bit_or (
      bit_table 32 (λ i b. max b (bit (not32 1) i)) (λ i b. if i == 0 then b else 1) k
        (dev_read intc xil_axi_intc_mer_offset) mer_table h),
)

-- After `enable_interrupt` line 0 and both master bits are set; `disable_interrupt` then masks line
-- 0 and still leaves the master enable bit set.
pub enable-disable :
    (intc : Device)
    → let on = enable_interrupt intc in
      let off = disable_interrupt on in
      (dev_read on xil_axi_intc_ier_offset ≡ 1)
      × (dev_read on xil_axi_intc_mer_offset ≡ 3)
      × (dev_read off xil_axi_intc_ier_offset ≡ 0)
      × (bit (dev_read off xil_axi_intc_mer_offset) 0 ≡ 1)
unfolding enable_interrupt disable_interrupt
enable-disable intc = (refl, refl, refl, refl)
