-- ===== src/Lago/Tests.antt =====
-- The theorems of the command line and of the loop of lago.c at concrete inputs.
use rp_ecosystem.Base.{ℕ, ◌*◌, true, false, List, [], ◌∷◌, Bytes, ◌≡◌, ◌≢◌, refl, arith}
use rp_ecosystem.Base.Text.{codes}
use rp_ecosystem.Base.Bits.{bit}
use rp_ecosystem.Base.Int.{pos}
use rp_ecosystem.Zynq.Registers.{dev_read, dev_write, xil_axi_intc_iar_offset}
use rp_ecosystem.Zynq.Device.{Board}
use rp_ecosystem.Zynq.Reset.{reset_word}
use rp_ecosystem.Lago.Params.{Params, register_of}
use rp_ecosystem.Lago.Command.{parse_param, parse_action, parse_rest, parse_set}
use rp_ecosystem.Base.Libc.{str_eq, starts_with, atoi}
use rp_ecosystem.Lago.Action.{OneAction, parse_param-one}
use rp_ecosystem.Lago.Setting.{IsSetting, parse_param-IsSetting}
use rp_ecosystem.Lago.Interrupts.{Event, Loop, state_of, wait_for_interrupt, round, rounds}
use rp_ecosystem.Lago.Main.{acquire, acquire-reset, acquire_fails-reset}
use rp_ecosystem.Lago.Interrupts.{Ended, goes_on, fails}
use rp_ecosystem.Base.Int.{ℤ, negsuc}
use rp_ecosystem.Zynq.Device.{wr_reg_value}
use rp_ecosystem.Zynq.Registers.{cfg_wr_addr_offset}
use rp_ecosystem.Lago.Main.{first_access, access_and_act}
use rp_ecosystem.Lago.Run.{configured, access_and_act-set, first_access-once}
use rp_ecosystem.Lago.RingTests.{board, acq, ring}

abbrev no_params : Params
no_params = record {
  f_read_reg = false;
  f_write_reg = false;
  f_get_cfg_status = false;
  f_set_cfg_reg = false;
  f_to_file = false;
  f_to_stdout = false;
  f_get_pt = false;
  f_get_gps = false;
  f_get_xadc = false;
  f_init_system = false;
  f_file = false;
  f_count = false;
  f_byte = false;
  f_data = false;
  f_reg_value = false;
  fshowversion = false;
  char_action = [];
  char_reg = [];
  sc_register = [];
  char_file = [];
  char_count = [];
  sc_byte = [];
  char_reg_value = [];
  n_dev = 0;
  reg_off = 0;
  reg_val = 0;
}

abbrev set_command : List Bytes
set_command = codes "lago" ∷ codes "-s" ∷ codes "hv1" ∷ codes "900" ∷ []

abbrev set_params : Params
set_params = record no_params {
  f_set_cfg_reg = true;
  f_reg_value = true;
  char_action = codes "-s";
  char_reg = codes "hv1";
  reg_off = 0x4C;
  char_reg_value = codes "900";
}

parse_param-one_example : OneAction set_params
unfolding parse_param parse_action str_eq parse_rest parse_set register_of starts_with atoi
parse_param-one_example = parse_param-one set_command no_params set_params refl refl

parse_param-IsSetting_example : IsSetting set_params
unfolding parse_param parse_action str_eq parse_rest parse_set register_of starts_with atoi
parse_param-IsSetting_example =
    parse_param-IsSetting set_command no_params set_params refl refl refl

-- An interrupt with the writer at word 5, and a wait that fails.
abbrev arrived : Event
arrived = record {
  wrote = true;
  polled = pos 1;
  took = true;
  seen = record { intc = λ o. 1; cfg = λ o. 0; sts = λ o. 5; xadc = λ o. 0 };
  ring = ring;
}

abbrev lost : Event
lost = record arrived { took = false }

abbrev idle : Loop
idle = record { board = board; position = 0; acq = acq }

abbrev served : Loop
served = record {
  board = record {
    intc = dev_write (λ o. 1) xil_axi_intc_iar_offset 1;
    cfg = λ o. 0;
    sts = λ o. 5;
    xadc = λ o. 0;
  };
  position = 5;
  acq = acq;
}

abbrev to_stdout : Params
to_stdout = record no_params { f_to_stdout = true }

abbrev finished : Loop
finished = state_of (acquire to_stdout 0 (arrived ∷ arrived ∷ []) idle)

abbrev failed : Loop
failed = state_of (acquire to_stdout 0 (arrived ∷ lost ∷ []) idle)

acquire-reset_example :
    (bit (reset_word finished.board.cfg) 2 ≡ 0) × (dev_read finished.board.cfg 8 ≡ 0)
unfolding acquire rounds round wait_for_interrupt
acquire-reset_example =
    acquire-reset to_stdout 0 (arrived ∷ arrived ∷ []) idle finished 2 8 refl (omega arith)
      (omega arith)

acquire_fails-reset_example : bit (reset_word failed.board.cfg) 2 ≡ 1
unfolding acquire rounds round wait_for_interrupt
acquire_fails-reset_example =
    acquire_fails-reset to_stdout 0 (arrived ∷ lost ∷ []) idle failed 2 refl (omega arith)

-- Another number in the place of the calibration.
abbrev double_of : ℤ → ℕ
double_of (pos n) = 2 * n
double_of (negsuc n) = 0

-- Logic that an earlier process initialised.
abbrev live : Loop
live = record idle { board = record board { cfg = λ o. 0x20 } }

access_and_act-set_example :
    access_and_act double_of 0x1E000000 false set_params 0 (arrived ∷ []) live
    ≡ goes_on (configured 0x4C 1800 (configured cfg_wr_addr_offset 0x1E000000 live))
unfolding parse_param parse_action str_eq parse_rest parse_set register_of starts_with atoi
access_and_act-set_example =
    access_and_act-set double_of 0x1E000000 false set_command no_params set_params 0 (arrived ∷ [])
      live refl refl refl (omega arith)

abbrev board_of : Ended Board → Board
board_of (goes_on b) = b
board_of (fails b) = b

abbrev first_board : Board
first_board = board_of (first_access 0x1E000000 true board)

abbrev recorded : Loop
recorded = state_of (acquire to_stdout 0 (arrived ∷ []) (record idle { board = first_board }))

first_access-once_example :
    (reset_word recorded.board.cfg ≢ 0)
    × (first_access 0x1F000000 false recorded.board
        ≡ goes_on (record recorded.board {
          cfg = dev_write recorded.board.cfg cfg_wr_addr_offset 0x1F000000;
        }))
unfolding first_access wr_reg_value acquire rounds round wait_for_interrupt
first_access-once_example =
    first_access-once 0x1E000000 0x1F000000 true false to_stdout 0 (arrived ∷ []) idle recorded
      first_board refl refl refl
