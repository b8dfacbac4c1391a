-- ===== src/Zynq/System.antt =====
-- `init_system`, `enable_interrupt` and `disable_interrupt` of zynq_io.c, and the register writes by
-- which `main` of lago.c starts and stops an acquisition.
use rp_ecosystem.Base.{ℕ, ◌*◌, ◌-◌, ◌^◌, bit_and, bit_or}
use rp_ecosystem.Zynq.Registers.{
  Device, dev_read, dev_write, cfg_reset_gral_offset, cfg_nsamples_offset, cfg_trlvl_1_offset,
  cfg_trlvl_2_offset, cfg_strlvl_1_offset, cfg_strlvl_2_offset, cfg_hv1_offset, cfg_hv2_offset,
  cfg_tr_scal_a_offset, cfg_tr_scal_b_offset, fgps_en_mask, xil_axi_intc_ier_offset,
  xil_axi_intc_mer_offset, xil_axi_intc_iar_offset, xil_axi_intc_mer_me_mask,
  xil_axi_intc_mer_hie_mask,
}

-- `~mask` on 32 bits, for a mask of at most 32 bits.
abbrev pub not32 : ℕ → ℕ
not32 mask = 2 ^ 32 - 1 - mask

-- Read the reset register, clear the bits of a mask, and write it back; and set them.
unfoldable pub clear_bits : ℕ → Device → Device
clear_bits mask cfg =
    dev_write cfg cfg_reset_gral_offset (bit_and (dev_read cfg cfg_reset_gral_offset) (not32 mask))

unfoldable pub set_bits : ℕ → Device → Device
set_bits mask cfg =
    dev_write cfg cfg_reset_gral_offset (bit_or (dev_read cfg cfg_reset_gral_offset) mask)

-- `init_system`, on the configuration device.
unfoldable pub init_system : Device → Device
unfolding clear_bits set_bits
init_system cfg =
    let c = dev_write cfg cfg_trlvl_1_offset 8190 in
    let c = dev_write c cfg_trlvl_2_offset 8190 in
    let c = dev_write c cfg_strlvl_1_offset 8190 in
    let c = dev_write c cfg_strlvl_2_offset 8190 in
    let c = dev_write c cfg_hv1_offset 0 in
    let c = dev_write c cfg_hv2_offset 0 in
    let c = clear_bits 8 c in
    let c = clear_bits 1 c in
    let c = clear_bits 4 c in
    let c = clear_bits 2 c in
    let c = dev_write c cfg_nsamples_offset (1024 * 1024) in
    let c = dev_write c cfg_tr_scal_a_offset 1 in
    let c = dev_write c cfg_tr_scal_b_offset 1 in
    let c = set_bits fgps_en_mask c in let c = set_bits 8 c in set_bits 0x20 c

-- Before and behind the reading loop of `main` in lago.c.
unfoldable pub start_acquisition : Device → Device
unfolding set_bits
start_acquisition cfg = set_bits 4 (set_bits 1 (set_bits 2 cfg))

unfoldable pub stop_acquisition : Device → Device
unfolding clear_bits
stop_acquisition cfg = clear_bits 2 (clear_bits 4 (clear_bits 1 cfg))

unfoldable pub enable_interrupt : Device → Device
enable_interrupt intc =
    let i = dev_write intc xil_axi_intc_ier_offset 1 in
    dev_write i xil_axi_intc_mer_offset (bit_or xil_axi_intc_mer_me_mask xil_axi_intc_mer_hie_mask)

unfoldable pub disable_interrupt : Device → Device
disable_interrupt intc =
    let i = dev_write intc xil_axi_intc_ier_offset 0 in
    let value = dev_read i xil_axi_intc_mer_offset in
    let i = dev_write i xil_axi_intc_mer_offset (bit_or value (not32 1)) in
    dev_write i xil_axi_intc_iar_offset 1
