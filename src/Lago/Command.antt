-- ===== src/Lago/Command.antt =====
-- `parse_param` of lago.c: the choice of the action and the parameters of each.
use rp_ecosystem.Base.{
  Bool, true, false, ◌&&◌, ◌||◌, not, List, [], ◌∷◌, none, some, if◌then◌else◌, Bytes, drop,
  get_elem?,
}
use rp_ecosystem.Base.Text.{codes}
use rp_ecosystem.Base.Int.{pos, ltb_ℤ}
use rp_ecosystem.Base.Libc.{str_eq, starts_with, strtoul, atoi}
use rp_ecosystem.Lago.Params.{
  Params, Parsed, maxchrlen, maxfilenamelen, strcpy_s, reset_flags, device_of, register_of, arg,
  returns, exits,
}

-- `-r` and `-w`.
unfoldable pub parse_access : List Bytes → Params → Parsed
unfolding strcpy_s
parse_access argv p = arg argv 2 λ r.
    let p' = record p { char_reg = strcpy_s maxchrlen r } in
    elim (device_of p'.char_reg) [
      | none ↦ returns p' false
      | some n ↦ arg argv 3 λ o.
          let p'' = record p' { n_dev = n; reg_off = strtoul 16 o } in
          if p.f_write_reg
          then arg argv 4 (λ v. returns (record p'' { reg_val = strtoul 16 v }) true)
          else returns p'' true
    ]

abbrev pub is_voltage : Bytes → Bool
is_voltage r = starts_with r (codes "hv") || starts_with r (codes "ov")

-- `-s`.
unfoldable pub parse_set : List Bytes → Params → Parsed
unfolding strcpy_s
parse_set argv p = arg argv 2 λ r.
    let p' = record p { char_reg = strcpy_s maxchrlen r } in
    elim (register_of p'.char_reg) [
      | none ↦ returns p' false
      | some off ↦ arg argv 3 λ v.
          let p'' = record p' { reg_off = off; char_reg_value = strcpy_s 16 v } in
          if is_voltage p''.char_reg
          then (if ltb_ℤ (pos 2500) (atoi p''.char_reg_value)
              then exits
              else returns (record p'' { f_reg_value = true }) true)
          else returns p'' true
    ]

-- `-f`.
unfoldable pub parse_file : List Bytes → Params → Parsed
unfolding strcpy_s
parse_file argv p = elim (get_elem? argv 2) [
  | none ↦ returns p false
  | some f ↦ returns (record p { char_file = strcpy_s maxfilenamelen f; f_file = true }) true
]

-- The options behind a register, `-f`, `-c` and `-b`, and the checks behind the loop; `argv` holds
-- the arguments from the third on.
unfoldable pub parse_options : List Bytes → Params → Parsed
unfolding strcpy_s
parse_options [] p =
    if p.f_write_reg && not p.f_byte
    then returns p false
    else if p.f_to_file && not p.f_file
    then returns p false
    else returns p true
parse_options (o ∷ []) p = returns p false
parse_options (o ∷ v ∷ argv) p =
    let rest = parse_options argv (
      if str_eq o (codes "-f")
      then record p { char_file = strcpy_s 16 v; f_file = true }
      else if str_eq o (codes "-c")
      then record p { char_count = strcpy_s 16 v; f_count = true }
      else record p { sc_byte = strcpy_s 16 v; f_byte = true }) in
    if str_eq o (codes "-f") || str_eq o (codes "-c") || str_eq o (codes "-b")
    then rest
    else returns p false

-- What stands behind the choice of the action.
unfoldable pub parse_rest : List Bytes → Params → Parsed
unfolding strcpy_s
parse_rest argv p =
    if p.f_read_reg || p.f_write_reg
    then parse_access argv p
    else if p.f_set_cfg_reg
    then parse_set argv p
    else if p.f_to_file
    then parse_file argv p
    else (arg argv 2
        λ r. parse_options (drop 3 argv) (record p { sc_register = strcpy_s maxchrlen r }))

-- The choice of the action.
unfoldable pub parse_action : List Bytes → Bytes → Params → Parsed
parse_action argv a p =
    if str_eq a (codes "-r")
    then parse_rest argv (record p { f_read_reg = true })
    else if str_eq a (codes "-w")
    then parse_rest argv (record p { f_write_reg = true })
    else if str_eq a (codes "-a")
    then returns (record p { f_get_cfg_status = true }) true
    else if str_eq a (codes "-v")
    then returns (record p { fshowversion = true }) false
    else if str_eq a (codes "-s")
    then parse_rest argv (record p { f_set_cfg_reg = true })
    else if str_eq a (codes "-f")
    then parse_rest argv (record p { f_to_file = true })
    else if str_eq a (codes "-o")
    then returns (record p { f_to_stdout = true }) true
    else if str_eq a (codes "-t")
    then returns (record p { f_get_pt = true }) true
    else if str_eq a (codes "-g")
    then returns (record p { f_get_gps = true }) true
    else if str_eq a (codes "-i")
    then returns (record p { f_init_system = true }) true
    else if str_eq a (codes "-x")
    then returns (record p { f_get_xadc = true }) true
    else returns p false

-- `parse_param`; `argv` has `argc` entries, and a null pointer follows them.
unfoldable pub parse_param : List Bytes → Params → Parsed
unfolding strcpy_s reset_flags
parse_param argv p = elim (get_elem? argv 1) [
  | none ↦ returns (reset_flags p) false
  | some a ↦
      let p' = record (reset_flags p) { char_action = strcpy_s maxchrlen a } in
      parse_action argv p'.char_action p'
]
