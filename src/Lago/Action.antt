-- ===== src/Lago/Action.antt =====
-- A command line that `parse_param` accepts names one action.
use rp_ecosystem.Base.{
  ℕ, ◌+◌, Bool, true, false, List, if◌then◌else◌, ◌≡◌, refl, ◌∙◌, inl, inr, Bytes, take, get_elem?,
  arith, Option-cases,
}
use rp_ecosystem.Lago.Params.{Params, returns, reset_flags}
use rp_ecosystem.Lago.Command.{
  parse_access, parse_set, parse_file, parse_rest, parse_action, parse_param,
}

-- The number of flags that are set among those by which `main` chooses what to do.
abbrev b2n : Bool → ℕ
b2n b = if b then 1 else 0

unfoldable pub actions : Params → ℕ
actions p =
    b2n p.f_read_reg
    + b2n p.f_write_reg
    + b2n p.f_get_cfg_status
    + b2n p.f_set_cfg_reg
    + b2n p.f_to_file
    + b2n p.f_to_stdout
    + b2n p.f_get_pt
    + b2n p.f_get_gps
    + b2n p.f_get_xadc
    + b2n p.f_init_system

-- The parameters of an action leave its flag, and those of the unreachable options, alone.
pub record SameFlags (p q : Params) : Type 0 where
  pub read : q.f_read_reg ≡ p.f_read_reg
  pub write : q.f_write_reg ≡ p.f_write_reg
  pub status : q.f_get_cfg_status ≡ p.f_get_cfg_status
  pub set : q.f_set_cfg_reg ≡ p.f_set_cfg_reg
  pub file : q.f_to_file ≡ p.f_to_file
  pub stdout : q.f_to_stdout ≡ p.f_to_stdout
  pub pt : q.f_get_pt ≡ p.f_get_pt
  pub gps : q.f_get_gps ≡ p.f_get_gps
  pub xadc : q.f_get_xadc ≡ p.f_get_xadc
  pub init : q.f_init_system ≡ p.f_init_system
  pub byte : q.f_byte ≡ p.f_byte
  pub count : q.f_count ≡ p.f_count
  pub content : q.f_data ≡ p.f_data

actions-SameFlags : (p q : Params) → SameFlags p q → actions q ≡ actions p
unfolding actions
actions-SameFlags p q s = cc

module _ (argv : List Bytes) (p q : Params) (b : Bool) where
  pub parse_access-SameFlags : parse_access argv p ≡ returns q b → SameFlags p q
  unfolding parse_access
  parse_access-SameFlags e = ground arith

  parse_set-SameFlags : parse_set argv p ≡ returns q b → SameFlags p q
  unfolding parse_set
  parse_set-SameFlags e = ground arith

  pub parse_file-SameFlags : parse_file argv p ≡ returns q b → SameFlags p q
  unfolding parse_file
  parse_file-SameFlags e = ground arith

-- No action yet, and none of the unreachable options.
pub record NoFlags (p : Params) : Type 0 where
  pub read : p.f_read_reg ≡ false
  pub write : p.f_write_reg ≡ false
  pub status : p.f_get_cfg_status ≡ false
  pub set : p.f_set_cfg_reg ≡ false
  pub file : p.f_to_file ≡ false
  pub stdout : p.f_to_stdout ≡ false
  pub pt : p.f_get_pt ≡ false
  pub gps : p.f_get_gps ≡ false
  pub xadc : p.f_get_xadc ≡ false
  pub init : p.f_init_system ≡ false
  pub byte : p.f_byte ≡ false
  pub count : p.f_count ≡ false
  pub content : p.f_data ≡ false

pub reset-NoFlags :
    (p : Params) (a : Bytes)
    → p.f_init_system ≡ false
    → NoFlags (record (reset_flags p) { char_action = a })
unfolding reset_flags
reset-NoFlags p a i = record {
  read = refl;
  write = refl;
  status = refl;
  set = refl;
  file = refl;
  stdout = refl;
  pt = refl;
  gps = refl;
  xadc = refl;
  init = i;
  byte = refl;
  count = refl;
  content = refl;
}

-- One action, and none of the options that stand behind a register.
abbrev pub OneAction : Params → Type 0
OneAction q = (actions q ≡ 1) × (q.f_byte ≡ false) × (q.f_count ≡ false) × (q.f_data ≡ false)

OneAction-SameFlags : (p q : Params) → OneAction p → SameFlags p q → OneAction q
OneAction-SameFlags p q o s =
    (actions-SameFlags p q s ∙ o.0, s.byte ∙ o.1, s.count ∙ o.2, s.content ∙ o.3)

module _ (argv : List Bytes) (p q : Params) (b : Bool) (n : NoFlags p) where
  read_one : parse_rest argv (record p { f_read_reg = true }) ≡ returns q b → OneAction q
  unfolding parse_rest actions
  read_one e =
      let p' = record p { f_read_reg = true } in
      OneAction-SameFlags p' q (ground arith) (parse_access-SameFlags argv p' q b e)

  write_one : parse_rest argv (record p { f_write_reg = true }) ≡ returns q b → OneAction q
  unfolding parse_rest actions
  write_one e =
      let p' = record p { f_write_reg = true } in
      OneAction-SameFlags p' q (ground arith) (parse_access-SameFlags argv p' q b (ground arith))

  set_one : parse_rest argv (record p { f_set_cfg_reg = true }) ≡ returns q b → OneAction q
  unfolding parse_rest actions
  set_one e =
      let p' = record p { f_set_cfg_reg = true } in
      OneAction-SameFlags p' q (ground arith) (parse_set-SameFlags argv p' q b (ground arith))

  file_one : parse_rest argv (record p { f_to_file = true }) ≡ returns q b → OneAction q
  unfolding parse_rest actions
  file_one e =
      let p' = record p { f_to_file = true } in
      OneAction-SameFlags p' q (ground arith) (parse_file-SameFlags argv p' q b (ground arith))

-- The actions that take no parameter.
plain_one :
    (p : Params)
    → NoFlags p
    → (actions (record p { f_get_cfg_status = true }) ≡ 1)
      × (actions (record p { f_to_stdout = true }) ≡ 1)
      × (actions (record p { f_get_pt = true }) ≡ 1)
      × (actions (record p { f_get_gps = true }) ≡ 1)
      × (actions (record p { f_init_system = true }) ≡ 1)
      × (actions (record p { f_get_xadc = true }) ≡ 1)
unfolding actions
plain_one p n = ground arith

parse_action-one :
    (argv : List Bytes) (a : Bytes) (p q : Params)
    → NoFlags p
    → parse_action argv a p ≡ returns q true
    → OneAction q
unfolding parse_action
parse_action-one argv a p q n e = ground (
  arith,
  plain_one p n,
  read_one argv p q true n,
  write_one argv p q true n,
  set_one argv p q true n,
  file_one argv p q true n,
)

-- A successful command line of a fresh process names exactly one action for `main`, and never
-- sets the options `-b` and `-c` nor the data flag: the code that reads them is not reached.
pub parse_param-one :
    (argv : List Bytes) (p q : Params)
    → p.f_init_system ≡ false
    → parse_param argv p ≡ returns q true
    → OneAction q
unfolding parse_param
parse_param-one argv p q i e = elim (Option-cases (get_elem? argv 1)) [
  | inl absent ↦ ground arith
  | inr (a, at) ↦
      let p' = record (reset_flags p) { char_action = take 1023 a } in
      parse_action-one argv (take 1023 a) p' q (reset-NoFlags p (take 1023 a) i) (ground arith)
]
