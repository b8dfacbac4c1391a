-- ===== src/Lago/Run.antt =====
-- `main` of lago.c on a parsed command line, and its first access to the logic.
use rp_ecosystem.Base.{ℕ, Bool, true, false, if◌then◌else◌, List, ◌≡◌, ◌≢◌, ap, arith, Bytes}
use rp_ecosystem.Base.Bits.{bit}
use rp_ecosystem.Base.Int.{ℤ, to_word}
use rp_ecosystem.Base.Libc.{atoi}
use rp_ecosystem.Zynq.Registers.{dev_write, cfg_wr_addr_offset}
use rp_ecosystem.Zynq.Device.{Board, wr_reg_value, set_voltage}
use rp_ecosystem.Zynq.System.{init_system}
use rp_ecosystem.Zynq.Reset.{reset_word, init_system-reset}
use rp_ecosystem.Lago.Params.{Params, returns}
use rp_ecosystem.Lago.Command.{parse_param}
use rp_ecosystem.Lago.Action.{actions, parse_param-one}
use rp_ecosystem.Lago.Setting.{is_dac, parse_param-IsSetting}
use rp_ecosystem.Lago.Interrupts.{Event, Loop, goes_on}
use rp_ecosystem.Lago.Main.{first_access, run_action, access_and_act, acquire, acquire-reset}

only_set :
    (q : Params)
    → actions q ≡ 1
    → q.f_set_cfg_reg ≡ true
    → (q.f_read_reg ≡ false) × (q.f_write_reg ≡ false)
unfolding actions
only_set q one s = ground arith

-- The board with one word of the configuration changed.
abbrev pub configured : ℕ → ℕ → Loop → Loop
configured offset value s =
    let b = s.board in record s { board = record b { cfg = dev_write b.cfg offset value } }

run_action-set :
    (dac_of : ℤ → ℕ) (argv : List Bytes) (p q : Params) (now : ℕ) (es : List Event) (s : Loop)
    → p.f_init_system ≡ false
    → parse_param argv p ≡ returns q true
    → q.f_set_cfg_reg ≡ true
    → let value = atoi q.char_reg_value in
      run_action dac_of q now es s
      ≡ goes_on
          (configured q.reg_off (if is_dac q.reg_off then dac_of value else to_word 32 value) s)
unfolding run_action wr_reg_value set_voltage
run_action-set dac_of argv p q now es s i e f =
    let (r, w) = only_set q (parse_param-one argv p q i e).0 f in
    let v = (parse_param-IsSetting argv p q i e f).0 in rw (r, w, f, v) (ground arith)

-- An access to logic whose reset register is not zero writes the address of the buffer alone.
first_access-live :
    (size : ℕ) (thread : Bool) (b : Board)
    → reset_word b.cfg ≢ 0
    → first_access size thread b
      ≡ goes_on (record b { cfg = dev_write b.cfg cfg_wr_addr_offset size })
unfolding first_access wr_reg_value
first_access-live size thread b n = ground arith

-- A command line of a fresh process that asks to set a register, on logic that is initialised already
-- (its reset register is not zero), makes `main`, from its first access on, write two registers of the
-- configuration and nothing else: the address of the buffer, and then the register that was asked for,
-- with the calibrated word if it is one of the slow DAC and with the number itself if not.
pub access_and_act-set :
    (dac_of : ℤ → ℕ) (size : ℕ) (thread : Bool) (argv : List Bytes) (p q : Params) (now : ℕ)
    (es : List Event) (s : Loop)
    → p.f_init_system ≡ false
    → parse_param argv p ≡ returns q true
    → q.f_set_cfg_reg ≡ true
    → reset_word s.board.cfg ≢ 0
    → let value = atoi q.char_reg_value in
      access_and_act dac_of size thread q now es s
      ≡ goes_on (
          configured q.reg_off
            (if is_dac q.reg_off then dac_of value else to_word 32 value)
            (configured cfg_wr_addr_offset size s))
unfolding access_and_act
access_and_act-set dac_of size thread argv p q now es s i e f n =
    rw (access_and_act, first_access-live size thread s.board n)
      (run_action-set dac_of argv p q now es (configured cfg_wr_addr_offset size s) i e f)

first_access-initialises :
    (size : ℕ) (thread : Bool) (b b' : Board)
    → reset_word b.cfg ≡ 0
    → first_access size thread b ≡ goes_on b'
    → b'.cfg ≡ init_system (dev_write b.cfg cfg_wr_addr_offset size)
unfolding first_access wr_reg_value
first_access-initialises size thread b b' z h = ground arith

-- A process finds the reset register zero, initialises the logic, and ends an acquisition at the
-- signal. The access of a next process then writes the address of its buffer and nothing else, whether
-- or not it could create a thread: the acquisition does not bring the reset register back to zero.
pub first_access-once :
    (size size' : ℕ) (thread thread' : Bool) (p : Params) (now : ℕ) (es : List Event) (s s' : Loop)
    (b' : Board)
    → reset_word s.board.cfg ≡ 0
    → first_access size thread s.board ≡ goes_on b'
    → acquire p now es (record s { board = b' }) ≡ goes_on s'
    → (reset_word s'.board.cfg ≢ 0)
      × (first_access size' thread' s'.board
          ≡ goes_on (record s'.board { cfg = dev_write s'.board.cfg cfg_wr_addr_offset size' }))
first_access-once size size' thread thread' p now es s s' b' z h q =
    let cfg = dev_write s.board.cfg cfg_wr_addr_offset size in
    let same = first_access-initialises size thread s.board b' z h in
    let kept : bit (reset_word s'.board.cfg) 5 ≡ bit (reset_word b'.cfg) 5 =
      (acquire-reset p now es (record s { board = b' }) s' 5 4 q (omega arith) (omega arith)).0 in
    let set : bit (reset_word b'.cfg) 5 ≡ 1 = rw same (init_system-reset cfg 5 (omega arith)) in
    let live : reset_word s'.board.cfg ≢ 0 = λ zero_word.
      let clear : bit (reset_word s'.board.cfg) 5 ≡ 0 = ap (λ w. bit w 5) zero_word in
      omega (arith, kept, set, clear) in
    (live, first_access-live size' thread' s'.board live)
