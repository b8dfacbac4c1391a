-- ===== src/Lago/Interrupts.antt =====
-- `wait_for_interrupt` of lago.c, and the reading loop of `main` around it and `read_buffer`.
use rp_ecosystem.Base.{
  ℕ, bit_and, Bool, true, false, not, List, [], ◌∷◌, ◌==◌, if◌then◌else◌, ◌≡◌, ◌≢◌, refl, arith,
  ◌⊎◌,
}
use rp_ecosystem.Base.Int.{ℤ, pos, ltb_ℤ}
use rp_ecosystem.Zynq.Registers.{
  dev_read, dev_write, xil_axi_intc_ipr_offset, xil_axi_intc_iar_offset, sts_status_offset,
}
use rp_ecosystem.Zynq.Device.{Board}
use rp_ecosystem.Lago.Acquisition.{Acq}
use rp_ecosystem.Lago.Buffer.{read_buffer}

-- What the system answers to one wait: whether `write` took its four bytes, the result of `poll`,
-- and whether `read` gave four bytes; `seen` is the board when `poll` returns, and `ring` the
-- memory of the words when they are read.
pub record Event : Type 0 where
  pub wrote : Bool
  pub polled : ℤ
  pub took : Bool
  pub seen : Board
  pub ring : ℕ → ℕ

-- The state that the loop keeps: the board, `position` and the globals of the decoder.
pub record Loop : Type 0 where
  pub board : Board
  pub position : ℕ
  pub acq : Acq

-- A run ends by a return, or by `exit(EXIT_FAILURE)` in some state.
pub data Ended {ℓ} (A : Type ℓ) : Type ℓ where
  goes_on : A → Ended A
  fails : A → Ended A

-- `wait_for_interrupt`. The devices of the interrupts and of the status change by themselves: they
-- are as `seen` shows them when `poll` returns.
unfoldable pub wait_for_interrupt : Event → Loop → Ended Loop
wait_for_interrupt e s =
    let b = s.board in
    let s' = record s { board = record b { intc = e.seen.intc; sts = e.seen.sts } } in
    let value = dev_read e.seen.intc xil_axi_intc_ipr_offset in
    if not e.wrote
    then fails s
    else if ltb_ℤ e.polled (pos 1)
    then goes_on s'
    else if not e.took
    then fails s'
    else if bit_and value 0x00000001 == 0
    then goes_on s'
    else goes_on (record s' {
      board = record b { intc = dev_write e.seen.intc xil_axi_intc_iar_offset 1; sts = e.seen.sts };
      position = dev_read e.seen.sts sts_status_offset;
    })

-- One round of `while(!interrupted)`: the wait, then `read_buffer` on the position.
unfoldable pub round : Bool → ℕ → Event → Loop → Ended Loop
round to_stdout now e s = elim (wait_for_interrupt e s) [
  | fails s' ↦ fails s'
  | goes_on s' ↦
      goes_on (record s' { acq = read_buffer s'.board to_stdout e.ring now s'.position s'.acq })
]

-- The loop, on the rounds up to the signal that sets `interrupted`.
unfoldable pub rounds : Bool → ℕ → List Event → Loop → Ended Loop
rounds to_stdout now [] s = goes_on s
rounds to_stdout now (e ∷ es) s = elim (round to_stdout now e s) [
  | fails s' ↦ fails s'
  | goes_on s' ↦ rounds to_stdout now es s'
]

-- The state in which a run ends, and whether it goes on.
abbrev pub state_of : Ended Loop → Loop
state_of (goes_on s) = s
state_of (fails s) = s

-- The position of the writer moves only when `poll` reported the interrupt of line 0 and its count
-- was read, to the word of the status register; the interrupt is then acknowledged.
wait_for_interrupt-position :
    (e : Event) (s s' : Loop)
    → wait_for_interrupt e s ≡ goes_on s'
    → (s'.position ≡ s.position)
      ⊎ ((ltb_ℤ e.polled (pos 1) ≡ false)
          × (e.took ≡ true)
          × (bit_and (dev_read e.seen.intc xil_axi_intc_ipr_offset) 1 ≢ 0)
          × (s'.position ≡ dev_read e.seen.sts sts_status_offset)
          × (dev_read s'.board.intc xil_axi_intc_iar_offset ≡ 1))
unfolding wait_for_interrupt
wait_for_interrupt-position e s s' h = ground arith

wait_for_interrupt-cfg :
    (e : Event) (s : Loop)
    → ((state_of (wait_for_interrupt e s)).board.cfg ≡ s.board.cfg)
      × ((state_of (wait_for_interrupt e s)).acq ≡ s.acq)
unfolding wait_for_interrupt
wait_for_interrupt-cfg e s = ground arith

round-cfg :
    (o : Bool) (now : ℕ) (e : Event) (s : Loop)
    → (state_of (round o now e s)).board.cfg ≡ s.board.cfg
unfolding round
round-cfg o now e s = ground (arith, wait_for_interrupt-cfg e s)

pub rounds-cfg :
    (o : Bool) (now : ℕ) (es : List Event) (s : Loop)
    → (state_of (rounds o now es s)).board.cfg ≡ s.board.cfg
unfolding rounds
rounds-cfg o now [] s = refl
rounds-cfg o now (e ∷ es) s =
    ground (arith, round-cfg o now e s, rounds-cfg o now es (state_of (round o now e s)))
