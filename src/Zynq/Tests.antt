-- ===== src/Zynq/Tests.antt =====
-- The theorems of the devices at concrete inputs.
use rp_ecosystem.Base.{◌≡◌, arith, ◌^◌, ◌-◌}
use rp_ecosystem.Base.Bits.{bit}
use rp_ecosystem.Zynq.Registers.{Device}
use rp_ecosystem.Zynq.Device.{Board}
use rp_ecosystem.Zynq.System.{init_system}
use rp_ecosystem.Zynq.Reset.{reset_word, init_system-reset}

-- A device whose words are all ones.
abbrev ones : Device
ones = λ o. 2 ^ 32 - 1

abbrev board : Board
board = record { intc = ones; cfg = ones; sts = ones; xadc = ones }

init_system-reset_example : bit (reset_word (init_system ones)) 1 ≡ 0
init_system-reset_example = init_system-reset ones 1 (omega arith)
