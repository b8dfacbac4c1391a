-- ===== src/Recorder/System.antt =====
-- `init_system` of the four recorders' zynq_io.c (adc_recorder_old has it in adc_recorder.c). Their
-- headers place the number of samples elsewhere than lago's does, which is why each is written out.
use rp_ecosystem.Base.{ℕ, ◌*◌, ◌==◌, if◌then◌else◌, ◌≡◌, arith}
use rp_ecosystem.Zynq.Registers.{
  Device, dev_write, cfg_trlvl_1_offset, cfg_trlvl_2_offset, cfg_strlvl_1_offset,
  cfg_strlvl_2_offset, cfg_hv1_offset, cfg_hv2_offset, cfg_tr_scal_a_offset, cfg_tr_scal_b_offset,
  fgps_en_mask,
}
use rp_ecosystem.Zynq.System.{clear_bits, set_bits, init_system}
use rp_ecosystem.Recorder.Setup.{nsamples_offset, old_nsamples_offset}

-- `init_system` of adc_recorder_uio.
unfoldable pub uio_init_system : Device → Device
unfolding clear_bits set_bits
uio_init_system cfg =
    let c = dev_write cfg cfg_trlvl_1_offset 8190 in
    let c = dev_write c cfg_trlvl_2_offset 8190 in
    let c = dev_write c cfg_strlvl_1_offset 8190 in
    let c = dev_write c cfg_strlvl_2_offset 8190 in
    let c = dev_write c cfg_hv1_offset 0 in
    let c = dev_write c cfg_hv2_offset 0 in
    let c = clear_bits 8 c in
    let c = clear_bits 1 c in
    let c = clear_bits 4 c in
    let c = clear_bits 2 c in
    let c = dev_write c nsamples_offset (1024 * 1024) in
    let c = dev_write c cfg_tr_scal_a_offset 1 in
    let c = dev_write c cfg_tr_scal_b_offset 1 in
    let c = set_bits fgps_en_mask c in let c = set_bits 8 c in set_bits 0x20 c

-- `init_system` of adc_recorder.
unfoldable pub recorder_init_system : Device → Device
unfolding clear_bits set_bits
recorder_init_system cfg =
    let c = dev_write cfg cfg_trlvl_1_offset 8190 in
    let c = dev_write c cfg_trlvl_2_offset 8190 in
    let c = dev_write c cfg_strlvl_1_offset 8190 in
    let c = dev_write c cfg_strlvl_2_offset 8190 in
    let c = dev_write c cfg_hv1_offset 0 in
    let c = dev_write c cfg_hv2_offset 0 in
    let c = clear_bits 8 c in
    let c = clear_bits 1 c in
    let c = clear_bits 4 c in
    let c = clear_bits 2 c in
    let c = dev_write c nsamples_offset (1024 * 1024) in
    let c = dev_write c cfg_tr_scal_a_offset 1 in
    let c = dev_write c cfg_tr_scal_b_offset 1 in
    let c = set_bits fgps_en_mask c in let c = set_bits 8 c in set_bits 0x20 c

-- `init_system` of counter_test.
unfoldable pub counter_init_system : Device → Device
unfolding clear_bits set_bits
counter_init_system cfg =
    let c = dev_write cfg cfg_trlvl_1_offset 8190 in
    let c = dev_write c cfg_trlvl_2_offset 8190 in
    let c = dev_write c cfg_strlvl_1_offset 8190 in
    let c = dev_write c cfg_strlvl_2_offset 8190 in
    let c = dev_write c cfg_hv1_offset 0 in
    let c = dev_write c cfg_hv2_offset 0 in
    let c = clear_bits 8 c in
    let c = clear_bits 1 c in
    let c = clear_bits 4 c in
    let c = clear_bits 2 c in
    let c = dev_write c nsamples_offset (1024 * 1024) in
    let c = dev_write c cfg_tr_scal_a_offset 1 in
    let c = dev_write c cfg_tr_scal_b_offset 1 in
    let c = set_bits fgps_en_mask c in let c = set_bits 8 c in set_bits 0x20 c

-- `init_system` of adc_recorder_old.
unfoldable pub old_init_system : Device → Device
unfolding clear_bits set_bits
old_init_system cfg =
    let c = dev_write cfg cfg_trlvl_1_offset 8190 in
    let c = dev_write c cfg_trlvl_2_offset 8190 in
    let c = dev_write c cfg_strlvl_1_offset 8190 in
    let c = dev_write c cfg_strlvl_2_offset 8190 in
    let c = dev_write c cfg_hv1_offset 0 in
    let c = dev_write c cfg_hv2_offset 0 in
    let c = clear_bits 8 c in
    let c = clear_bits 1 c in
    let c = clear_bits 4 c in
    let c = clear_bits 2 c in
    let c = dev_write c old_nsamples_offset (1024 * 1024) in
    let c = dev_write c cfg_tr_scal_a_offset 1 in
    let c = dev_write c cfg_tr_scal_b_offset 1 in
    let c = set_bits fgps_en_mask c in let c = set_bits 8 c in set_bits 0x20 c

-- At every offset, `init_system` of adc_recorder_old leaves the word that lago's leaves. The three
-- others do too but at 4, which they keep, and at 8, where their header puts both the first trigger
-- level and the number of samples: it ends as 1024 * 1024 and not, as lago's, as the level 8190.
pub init_system-copies :
    (cfg : Device) (o : ℕ)
    → let shared = if o == 4 then cfg 4 else if o == 8 then 1024 * 1024 else init_system cfg o in
      (old_init_system cfg o ≡ init_system cfg o)
      × (uio_init_system cfg o ≡ shared)
      × (recorder_init_system cfg o ≡ shared)
      × (counter_init_system cfg o ≡ shared)
      × (init_system cfg cfg_trlvl_1_offset ≡ 8190)
unfolding old_init_system uio_init_system recorder_init_system counter_init_system init_system
init_system-copies cfg o = ground arith
