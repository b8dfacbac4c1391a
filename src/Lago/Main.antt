-- ===== src/Lago/Main.antt =====
-- `main` of lago.c, from the mapped devices on: the first access and the action that was chosen.
use rp_ecosystem.Base.{ℕ, ◌<◌, Bool, ◌||◌, List, ltb, ◌==◌, if◌then◌else◌, ◌≡◌, ◌≢◌, arith}
use rp_ecosystem.Base.Bits.{bit}
use rp_ecosystem.Base.Int.{ℤ, negsuc, to_word}
use rp_ecosystem.Base.Libc.{atoi}
use rp_ecosystem.Zynq.Registers.{dev_read, cfg_reset_gral_offset, cfg_wr_addr_offset}
use rp_ecosystem.Zynq.Device.{Board, wr_reg_value, set_voltage}
use rp_ecosystem.Zynq.System.{init_system, enable_interrupt, start_acquisition, stop_acquisition}
use rp_ecosystem.Zynq.Reset.{reset_word, acquisition-reset}
use rp_ecosystem.Lago.Params.{Params}
use rp_ecosystem.Lago.Interrupts.{Event, Loop, Ended, goes_on, fails, rounds, rounds-cfg}

-- From `wr_reg_value(1, CFG_WR_ADDR_OFFSET, dev_size,0)` to the first access. `thread` tells
-- whether the thread of the false GPS could be created; if not the process ends.
unfoldable pub first_access : ℕ → Bool → Board → Ended Board
first_access dev_size thread b =
    let b' = (wr_reg_value b 1 cfg_wr_addr_offset dev_size).0 in
    if dev_read b'.cfg cfg_reset_gral_offset == 0
    then (let b'' = record b' { cfg = init_system b'.cfg } in
        if thread then goes_on (record b'' { intc = enable_interrupt b''.intc }) else fails b'')
    else goes_on b'

-- The branch of `fToFile || fToStdout`.
unfoldable pub acquire : Params → ℕ → List Event → Loop → Ended Loop
acquire p now es s =
    let b = s.board in
    let started = record s {
      board = record b { cfg = start_acquisition b.cfg };
      acq = record s.acq { current = negsuc 1 };
    } in
    elim (rounds p.f_to_stdout now es started) [
      | fails s' ↦ fails s'
      | goes_on s' ↦
          let b' = s'.board in
          goes_on (record s' { board = record b' { cfg = stop_acquisition b'.cfg } })
    ]

-- The choice of the action. The actions that only print leave the state alone. `dac_of` is the
-- calibration of `set_voltage`.
unfoldable pub run_action : (ℤ → ℕ) → Params → ℕ → List Event → Loop → Ended Loop
run_action dac_of p now es s =
    if p.f_read_reg
    then goes_on s
    else if p.f_write_reg
    then goes_on (record s { board = (wr_reg_value s.board p.n_dev p.reg_off p.reg_val).0 })
    else if p.f_set_cfg_reg
    then (if p.f_reg_value
        then goes_on
            (record s { board = set_voltage dac_of s.board p.reg_off (atoi p.char_reg_value) })
        else goes_on (record s {
          board = (wr_reg_value s.board 1 p.reg_off (to_word 32 (atoi p.char_reg_value))).0;
        }))
    else if p.f_get_cfg_status || p.f_get_pt || p.f_get_gps
    then goes_on s
    else if p.f_init_system
    then (let b = s.board in goes_on (record s { board = record b { cfg = init_system b.cfg } }))
    else if p.f_get_xadc
    then goes_on s
    else if p.f_to_file || p.f_to_stdout
    then acquire p now es s
    else goes_on s

-- From the address of the buffer to the end of the action.
unfoldable pub access_and_act : (ℤ → ℕ) → ℕ → Bool → Params → ℕ → List Event → Loop → Ended Loop
unfolding first_access run_action
access_and_act dac_of dev_size thread p now es s = elim (first_access dev_size thread s.board) [
  | fails b ↦ fails (record s { board = b })
  | goes_on b ↦ run_action dac_of p now es (record s { board = b })
]

acquire-cfg :
    (p : Params) (now : ℕ) (es : List Event) (s s' : Loop)
    → acquire p now es s ≡ goes_on s'
    → s'.board.cfg ≡ stop_acquisition (start_acquisition s.board.cfg)
unfolding acquire
acquire-cfg p now es s s' h =
    let b = s.board in
    let started = record s {
      board = record b { cfg = start_acquisition b.cfg };
      acq = record s.acq { current = negsuc 1 };
    } in
    ground (arith, rounds-cfg p.f_to_stdout now es started)

-- An acquisition that the signal ends clears the bits 0 to 2 of the reset register, and leaves its
-- other bits and all other registers of the configuration as they were before the start.
pub acquire-reset :
    (p : Params) (now : ℕ) (es : List Event) (s s' : Loop) (k o : ℕ)
    → acquire p now es s ≡ goes_on s'
    → k < 32
    → o ≢ 0
    → (bit (reset_word s'.board.cfg) k ≡ (if ltb k 3 then 0 else bit (reset_word s.board.cfg) k))
      × (dev_read s'.board.cfg o ≡ dev_read s.board.cfg o)
acquire-reset p now es s s' k o h l ne =
    let same = acquire-cfg p now es s s' h in
    let kept = acquisition-reset s.board.cfg k o l ne in rw same (kept.1, kept.3)

acquire_fails-cfg :
    (p : Params) (now : ℕ) (es : List Event) (s s' : Loop)
    → acquire p now es s ≡ fails s'
    → s'.board.cfg ≡ start_acquisition s.board.cfg
unfolding acquire
acquire_fails-cfg p now es s s' h =
    let b = s.board in
    let started = record s {
      board = record b { cfg = start_acquisition b.cfg };
      acq = record s.acq { current = negsuc 1 };
    } in
    ground (arith, rounds-cfg p.f_to_stdout now es started)

-- An acquisition that ends because a wait fails leaves the bits 0 to 2 of the reset register set,
-- and its other bits as they were.
pub acquire_fails-reset :
    (p : Params) (now : ℕ) (es : List Event) (s s' : Loop) (k : ℕ)
    → acquire p now es s ≡ fails s'
    → k < 32
    → bit (reset_word s'.board.cfg) k ≡ (if ltb k 3 then 1 else bit (reset_word s.board.cfg) k)
acquire_fails-reset p now es s s' k h l =
    let same = acquire_fails-cfg p now es s s' h in
    rw same (acquisition-reset s.board.cfg k 1 l (omega arith)).0
