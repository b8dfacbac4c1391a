-- ===== src/Lago/Setting.antt =====
-- What `-s` accepts, and the command lines that are too short.
use rp_ecosystem.Base.{
  ℕ, Bool, true, false, ◌&&◌, ◌||◌, List, [], ◌∷◌, some, ◌==◌, ◌≡◌, refl, ap, ◌∙◌, ◌⊎◌, inl, inr,
  Bytes, take, get_elem?, arith, Option-cases,
}
use rp_ecosystem.Base.Text.{codes}
use rp_ecosystem.Base.Int.{pos, ltb_ℤ}
use rp_ecosystem.Base.Libc.{str_eq, starts_with, atoi, eq_of_str_eq}
use rp_ecosystem.Lago.Action.{NoFlags, parse_access-SameFlags, parse_file-SameFlags, reset-NoFlags}
use rp_ecosystem.Lago.Params.{Params, returns, null_read, reset_flags, register_of}
use rp_ecosystem.Lago.Command.{
  is_voltage, parse_access, parse_set, parse_rest, parse_action, parse_param,
}

-- The registers of the slow DAC, which carry the voltages.
abbrev pub is_dac : ℕ → Bool
is_dac off = off == 0x40 || off == 0x44 || off == 0x48 || off == 0x4C

voltage_of : (r t : Bytes) → str_eq r t ≡ true → is_voltage r ≡ is_voltage t
voltage_of r t h = ap is_voltage (eq_of_str_eq r t h)

register_of-dac : (r : Bytes) {off : ℕ} → register_of r ≡ some off → is_voltage r ≡ is_dac off
unfolding register_of starts_with
register_of-dac r h = ground (
  arith,
  voltage_of r (codes "t1"),
  voltage_of r (codes "t2"),
  voltage_of r (codes "st1"),
  voltage_of r (codes "st2"),
  voltage_of r (codes "hv1"),
  voltage_of r (codes "hv2"),
  voltage_of r (codes "ov1"),
  voltage_of r (codes "ov2"),
  voltage_of r (codes "ov3"),
  voltage_of r (codes "ov4"),
  voltage_of r (codes "sc1"),
  voltage_of r (codes "sc2"),
)

-- A register of `-s` is set through the voltage calibration exactly if it is one of the DAC, and
-- then the voltage is at most 2500.
abbrev pub IsSetting : Params → Type 0
IsSetting q =
    (q.f_reg_value ≡ is_dac q.reg_off)
    × ((is_dac q.reg_off && ltb_ℤ (pos 2500) (atoi q.char_reg_value)) ≡ false)

parse_set-IsSetting :
    (argv : List Bytes) (p q : Params)
    → p.f_reg_value ≡ false
    → parse_set argv p ≡ returns q true
    → IsSetting q
unfolding parse_set
parse_set-IsSetting argv p q h e = elim (Option-cases (get_elem? argv 2)) [
  | inl absent ↦ ground arith
  | inr (r, at) ↦ elim (Option-cases (register_of (take 1023 r))) [
    | inl other ↦ ground arith
    | inr (off, known) ↦ ground (arith, register_of-dac (take 1023 r) known)
  ]
]

module _ (argv : List Bytes) (p q : Params) (b : Bool) (n : NoFlags p) where
  read_set :
      parse_rest argv (record p { f_read_reg = true }) ≡ returns q b → q.f_set_cfg_reg ≡ false
  unfolding parse_rest
  read_set e =
      let p' = record p { f_read_reg = true } in (parse_access-SameFlags argv p' q b e).set ∙ n.set

  write_set :
      parse_rest argv (record p { f_write_reg = true }) ≡ returns q b → q.f_set_cfg_reg ≡ false
  unfolding parse_rest
  write_set e =
      let p' = record p { f_write_reg = true } in
      (parse_access-SameFlags argv p' q b (ground arith)).set ∙ n.set

  file_set : parse_rest argv (record p { f_to_file = true }) ≡ returns q b → q.f_set_cfg_reg ≡ false
  unfolding parse_rest
  file_set e =
      let p' = record p { f_to_file = true } in
      (parse_file-SameFlags argv p' q b (ground arith)).set ∙ n.set

  set_set :
      p.f_reg_value ≡ false
      → parse_rest argv (record p { f_set_cfg_reg = true }) ≡ returns q true
      → IsSetting q
  unfolding parse_rest
  set_set v e =
      let p' = record p { f_set_cfg_reg = true } in parse_set-IsSetting argv p' q v (ground arith)

parse_action-IsSetting :
    (argv : List Bytes) (a : Bytes) (p q : Params)
    → NoFlags p
    → p.f_reg_value ≡ false
    → parse_action argv a p ≡ returns q true
    → q.f_set_cfg_reg ≡ true
    → IsSetting q
unfolding parse_action
parse_action-IsSetting argv a p q n v e s = ground (
  arith,
  read_set argv p q true n,
  write_set argv p q true n,
  set_set argv p q true n v,
  file_set argv p q true n,
)

-- When a command line of a fresh process asks to set a register, `main` goes through the voltage
-- calibration exactly if the register is one of the slow DAC, and no voltage above 2500 gets there.
pub parse_param-IsSetting :
    (argv : List Bytes) (p q : Params)
    → p.f_init_system ≡ false
    → parse_param argv p ≡ returns q true
    → q.f_set_cfg_reg ≡ true
    → IsSetting q
unfolding parse_param
parse_param-IsSetting argv p q i e s = elim (Option-cases (get_elem? argv 1)) [
  | inl absent ↦ ground arith
  | inr (a, at) ↦
      let p' = record (reset_flags p) { char_action = take 1023 a } in
      parse_action-IsSetting argv (take 1023 a) p' q (reset-NoFlags p (take 1023 a) i) refl
        (ground arith) s
]

-- A register action with no register makes the program read through a null pointer, although the
-- number of arguments is tested before.
parse_param-null :
    (prog a : Bytes) (p : Params)
    → (a ≡ codes "-r") ⊎ (a ≡ codes "-w") ⊎ (a ≡ codes "-s")
    → parse_param (prog ∷ a ∷ []) p ≡ null_read
unfolding parse_param parse_action parse_rest parse_access parse_set str_eq
parse_param-null prog a p (inl e) = rw e
parse_param-null prog a p (inr (inl e)) = rw e
parse_param-null prog a p (inr (inr e)) = rw e
