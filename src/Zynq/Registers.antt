-- ===== src/Zynq/Registers.antt =====
-- The offsets and masks of zynq_io.h that the code uses, and a device as the words at its offsets.
use rp_ecosystem.Base.{ℕ, ◌==◌, if◌then◌else◌}

abbrev pub xil_axi_intc_ipr_offset : ℕ
xil_axi_intc_ipr_offset = 0x4

abbrev pub xil_axi_intc_ier_offset : ℕ
xil_axi_intc_ier_offset = 0x8

abbrev pub xil_axi_intc_iar_offset : ℕ
xil_axi_intc_iar_offset = 0xC

abbrev pub xil_axi_intc_mer_offset : ℕ
xil_axi_intc_mer_offset = 0x1C

abbrev pub xil_axi_intc_mer_me_mask : ℕ
xil_axi_intc_mer_me_mask = 0x1

abbrev pub xil_axi_intc_mer_hie_mask : ℕ
xil_axi_intc_mer_hie_mask = 0x2

abbrev pub cfg_reset_gral_offset : ℕ
cfg_reset_gral_offset = 0x0

abbrev pub cfg_nsamples_offset : ℕ
cfg_nsamples_offset = 0x4

abbrev pub cfg_trlvl_1_offset : ℕ
cfg_trlvl_1_offset = 0x8

abbrev pub cfg_trlvl_2_offset : ℕ
cfg_trlvl_2_offset = 0xC

abbrev pub cfg_strlvl_1_offset : ℕ
cfg_strlvl_1_offset = 0x10

abbrev pub cfg_strlvl_2_offset : ℕ
cfg_strlvl_2_offset = 0x14

abbrev pub cfg_tr_scal_a_offset : ℕ
cfg_tr_scal_a_offset = 0x38

abbrev pub cfg_tr_scal_b_offset : ℕ
cfg_tr_scal_b_offset = 0x3C

abbrev pub cfg_hv1_offset : ℕ
cfg_hv1_offset = 0x4C

abbrev pub cfg_hv2_offset : ℕ
cfg_hv2_offset = 0x48

abbrev pub cfg_hv3_offset : ℕ
cfg_hv3_offset = 0x40

abbrev pub cfg_hv4_offset : ℕ
cfg_hv4_offset = 0x44

abbrev pub cfg_wr_addr_offset : ℕ
cfg_wr_addr_offset = 0x58

abbrev pub fgps_en_mask : ℕ
fgps_en_mask = 0x10

abbrev pub sts_status_offset : ℕ
sts_status_offset = 0x0

abbrev pub xadc_ai0_offset : ℕ
xadc_ai0_offset = 0x260

abbrev pub xadc_ai1_offset : ℕ
xadc_ai1_offset = 0x240

abbrev pub xadc_ai2_offset : ℕ
xadc_ai2_offset = 0x244

abbrev pub xadc_ai3_offset : ℕ
xadc_ai3_offset = 0x264

-- A mapped device: the word of 32 bits at each offset.
abbrev pub Device : Type 0
Device = ℕ → ℕ

-- `dev_read`.
abbrev pub dev_read : Device → ℕ → ℕ
dev_read dev offset = dev offset

-- `dev_write`; a negative value is its bit pattern.
abbrev pub dev_write : Device → ℕ → ℕ → Device
dev_write dev offset value = λ o. if o == offset then value else dev o
