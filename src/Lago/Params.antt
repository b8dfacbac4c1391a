-- ===== src/Lago/Params.antt =====
-- The globals that `parse_param` of lago.c sets, `StrcpyS`, and the names of devices and registers.
use rp_ecosystem.Base.{
  ℕ, ◌-◌, Bool, false, List, Option, none, some, if◌then◌else◌, Bytes, take, get_elem?,
}
use rp_ecosystem.Base.Text.{codes}
use rp_ecosystem.Base.Libc.{str_eq}
use rp_ecosystem.Zynq.Registers.{
  cfg_trlvl_1_offset, cfg_trlvl_2_offset, cfg_strlvl_1_offset, cfg_strlvl_2_offset, cfg_hv1_offset,
  cfg_hv2_offset, cfg_hv3_offset, cfg_hv4_offset, cfg_tr_scal_a_offset, cfg_tr_scal_b_offset,
}

-- The flags and strings of the command line.
pub record Params : Type 0 where
  pub f_read_reg : Bool
  pub f_write_reg : Bool
  pub f_get_cfg_status : Bool
  pub f_set_cfg_reg : Bool
  pub f_to_file : Bool
  pub f_to_stdout : Bool
  pub f_get_pt : Bool
  pub f_get_gps : Bool
  pub f_get_xadc : Bool
  pub f_init_system : Bool
  pub f_file : Bool
  pub f_count : Bool
  pub f_byte : Bool
  pub f_data : Bool
  pub f_reg_value : Bool
  pub fshowversion : Bool
  pub char_action : Bytes
  pub char_reg : Bytes
  pub sc_register : Bytes
  pub char_file : Bytes
  pub char_count : Bytes
  pub sc_byte : Bytes
  pub char_reg_value : Bytes
  pub n_dev : ℕ
  pub reg_off : ℕ
  pub reg_val : ℕ

-- How `parse_param` ends: it returns (1 is true), it reads through the null pointer that ends
-- `argv`, or it calls `exit(1)`.
pub data Parsed : Type 0 where
  returns : Params → Bool → Parsed
  null_read : Parsed
  exits : Parsed

abbrev pub maxchrlen : ℕ
maxchrlen = 1024

abbrev pub maxfilenamelen : ℕ
maxfilenamelen = 255

-- `StrcpyS` into a buffer of `cch_dst` bytes, more than none.
unfoldable pub strcpy_s : ℕ → Bytes → Bytes
strcpy_s cch_dst src = take (cch_dst - 1) src

unfoldable pub reset_flags : Params → Params
reset_flags p = record p {
  f_read_reg = false;
  f_write_reg = false;
  f_get_cfg_status = false;
  f_set_cfg_reg = false;
  f_to_file = false;
  f_to_stdout = false;
  f_get_pt = false;
  f_get_gps = false;
  f_file = false;
  f_count = false;
  f_byte = false;
  f_data = false;
  f_reg_value = false;
  f_get_xadc = false;
}

-- The devices of `-r` and `-w`.
unfoldable pub device_of : Bytes → Option ℕ
device_of r =
    if str_eq r (codes "intc")
    then some 0
    else if str_eq r (codes "cfg")
    then some 1
    else if str_eq r (codes "sts")
    then some 2
    else if str_eq r (codes "xadc")
    then some 3
    else none

-- The registers of `-s`.
unfoldable pub register_of : Bytes → Option ℕ
register_of r =
    if str_eq r (codes "t1")
    then some cfg_trlvl_1_offset
    else if str_eq r (codes "t2")
    then some cfg_trlvl_2_offset
    else if str_eq r (codes "st1")
    then some cfg_strlvl_1_offset
    else if str_eq r (codes "st2")
    then some cfg_strlvl_2_offset
    else if str_eq r (codes "hv1")
    then some cfg_hv1_offset
    else if str_eq r (codes "hv2")
    then some cfg_hv2_offset
    else if str_eq r (codes "ov1")
    then some cfg_hv1_offset
    else if str_eq r (codes "ov2")
    then some cfg_hv2_offset
    else if str_eq r (codes "ov3")
    then some cfg_hv3_offset
    else if str_eq r (codes "ov4")
    then some cfg_hv4_offset
    else if str_eq r (codes "sc1")
    then some cfg_tr_scal_a_offset
    else if str_eq r (codes "sc2")
    then some cfg_tr_scal_b_offset
    else none

-- `argv[i]`, where a null pointer or an index past it ends the run.
abbrev pub arg : List Bytes → ℕ → (Bytes → Parsed) → Parsed
arg argv i k = elim (get_elem? argv i) [ none ↦ null_read | some s ↦ k s ]
