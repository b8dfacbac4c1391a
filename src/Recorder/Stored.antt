-- ===== src/Recorder/Stored.antt =====
-- What the three copies of adc-recorder.c leave and print.
use rp_ecosystem.Base.{
  ℕ, ◌-◌, ◌*◌, ◌<◌, Bool, true, false, not, ◌&&◌, List, ltb, if◌then◌else◌, Option, some, ◌≡◌, ◌≢◌,
  refl, sym, subst, ap, ◌∙◌, arith,
}
use rp_ecosystem.Base.Bits.{bit, bit-bit_and, bit-bit_or, bit_table}
use rp_ecosystem.Base.Int.{ℤ, pos, ltb_ℤ}
use rp_ecosystem.Zynq.Registers.{Device}
use rp_ecosystem.Recorder.Memory.{Ram, mem_lines}
use rp_ecosystem.Recorder.Setup.{mem_setup}
use rp_ecosystem.Recorder.Lines.{Recording, stored}
use rp_ecosystem.Recorder.Reset.{pulse_bit, pulse_table, uio_setup-registers}
use rp_ecosystem.Recorder.Agree.{IsWord, mem_setup-uio_setup}
use rp_ecosystem.Recorder.Programs.{
  Host, Exit, failed, faulted, finished, record_through, after_opens, mem_main, uio_mem_main,
  old_mem_main, uio_mem_setup, old_mem_setup, uio_mem_lines, old_mem_lines, pairs_of,
  mem_lines-stored, uio_mem_lines-mem_lines, old_mem_lines-stored,
}

-- The answers with which a program comes to its mappings.
abbrev pub opens : Host → Bool
opens h =
    not (ltb_ℤ h.mem_opened (pos 0))
    && (not (ltb_ℤ h.cma_opened (pos 0)) && not (ltb_ℤ h.ioctl_result (pos 0)))

-- A writer set up for 2 ^ 20 samples at an address, with the bits 0 to 2 of the reset register set and
-- its bit k and the register o as they were, but for those.
abbrev pub Armed : ℕ → Device → ℕ → ℕ → Device → Type 0
Armed address cfg k o left =
    (left 4 ≡ address)
    × (left 8 ≡ 1024 * 1024 - 1)
    × (bit (left 0) k ≡ (if ltb k 3 then 1 else bit (cfg 0) k))
    × (left o ≡ cfg o)

-- The same where the number of samples stands at 4 and the address is fixed.
abbrev pub ArmedAt4 : Device → ℕ → ℕ → Device → Type 0
ArmedAt4 cfg k o left =
    (left 4 ≡ 1024 * 1024 - 1)
    × (bit (left 0) k ≡ (if ltb k 3 then 1 else bit (cfg 0) k))
    × (left 8 ≡ cfg 8)
    × (left o ≡ cfg o)

-- A program that could open what it needs ends with its lines and its registers, one that could not
-- fails before it writes a register.
abbrev pub Ends : Bool → Exit → List (ℤ × ℤ) → (Device → Type 0) → Type 0
Ends false e pairs P = e ≡ failed
Ends true failed pairs P = ⊥
Ends true faulted pairs P = ⊥
Ends true (finished left lines) pairs P = (lines ≡ pairs) × P left

to-Ends :
    (b : Bool) (e : Exit) (left : Device) (pairs : List (ℤ × ℤ)) (P : Device → Type 0)
    → e ≡ (if b then finished left pairs else failed)
    → P left
    → Ends b e pairs P
to-Ends true e left pairs P h q = subst (λ t. Ends true t pairs P) (sym h) (refl, q)
to-Ends false e left pairs P h q = h

record_through-stored :
    (setup : Device → Device) (lines : Ram → List (ℤ × ℤ)) (pairs : List (ℤ × ℤ))
    (mapped : Option Device) (ram : Option Ram) (cfg : Device) (p : Recording)
    → mapped ≡ some cfg
    → ram ≡ some (stored p)
    → lines (stored p) ≡ pairs
    → record_through setup lines mapped ram ≡ finished (setup cfg) pairs
unfolding record_through
record_through-stored setup lines pairs mapped ram cfg p c r e =
    ap (λ o. record_through setup lines o ram) c
    ∙ ap (λ o. record_through setup lines (some cfg) o) r
    ∙ ap (finished (setup cfg)) e

after_opens-opens : (h : Host) (e : Exit) → after_opens h e ≡ (if opens h then e else failed)
unfolding after_opens
after_opens-opens h e = ground arith

mem_main-eq :
    (h : Host) (cfg : Device) (p : Recording)
    → h.cfg 0x40000000 ≡ some cfg
    → h.ram ≡ some (stored p)
    → mem_main h ≡ (
        if opens h
        then finished (mem_setup h.ioctl_size cfg) (pairs_of p 0 (1024 * 1024))
        else failed)
unfolding mem_main
mem_main-eq h cfg p c r =
    let lines = λ (ram : Ram). mem_lines ram 0 (1024 * 1024) in
    let setup = mem_setup h.ioctl_size in
    after_opens-opens h (record_through setup lines (h.cfg 0x40000000) h.ram)
    ∙ ap (λ e. if opens h then e else failed)
        (record_through-stored setup lines (pairs_of p 0 (1024 * 1024)) (h.cfg 0x40000000) h.ram cfg
          p c r (mem_lines-stored p 0 (1024 * 1024)))

uio_mem_main-eq :
    (h : Host) (cfg : Device) (p : Recording)
    → h.cfg 0x40001000 ≡ some cfg
    → h.ram ≡ some (stored p)
    → uio_mem_main h ≡ (
        if opens h
        then finished (uio_mem_setup h.ioctl_size cfg) (pairs_of p 0 (1024 * 1024))
        else failed)
unfolding uio_mem_main
uio_mem_main-eq h cfg p c r =
    let lines = λ (ram : Ram). uio_mem_lines ram 0 (1024 * 1024) in
    let setup = uio_mem_setup h.ioctl_size in
    after_opens-opens h (record_through setup lines (h.cfg 0x40001000) h.ram)
    ∙ ap (λ e. if opens h then e else failed)
        (record_through-stored setup lines (pairs_of p 0 (1024 * 1024)) (h.cfg 0x40001000) h.ram cfg
          p c r
          (uio_mem_lines-mem_lines (stored p) 0 (1024 * 1024) ∙ mem_lines-stored p 0 (1024 * 1024)))

old_mem_main-eq :
    (h : Host) (cfg : Device) (p : Recording)
    → h.cfg 0x40000000 ≡ some cfg
    → h.ram ≡ some (stored p)
    → old_mem_main h ≡ (
        if not (ltb_ℤ h.mem_opened (pos 0))
        then finished (old_mem_setup cfg) (pairs_of p 0 (1024 * 1024))
        else failed)
unfolding old_mem_main
old_mem_main-eq h cfg p c r =
    let lines = λ (ram : Ram). old_mem_lines ram 0 (1024 * 1024) in
    let e =
      record_through-stored old_mem_setup lines (pairs_of p 0 (1024 * 1024)) (h.cfg 0x40000000)
        h.ram cfg p c r (old_mem_lines-stored p 0 (1024 * 1024)) in
    ap (λ t. if ltb_ℤ h.mem_opened (pos 0) then failed else t) e ∙ ground arith

mem_setup-Armed :
    (size : ℕ) (cfg : Device) (k o : ℕ)
    → IsWord cfg
    → k < 32
    → o ≢ 0
    → o ≢ 4
    → o ≢ 8
    → Armed size cfg k o (mem_setup size cfg)
mem_setup-Armed size cfg k o w h n0 n4 n8 =
    let (b, a, s, r) = uio_setup-registers size cfg k o h n0 n4 n8 in
    let same = λ (q : ℕ). mem_setup-uio_setup size cfg q w in
    (same 4 ∙ a, same 8 ∙ s, ap (λ x. bit x k) (same 0) ∙ b, same o ∙ r)

uio_mem_setup-mem_setup : (size : ℕ) (cfg : Device) → uio_mem_setup size cfg ≡ mem_setup size cfg
unfolding uio_mem_setup mem_setup
uio_mem_setup-mem_setup size cfg = refl

old_mem_setup-ArmedAt4 :
    (cfg : Device) (k o : ℕ) → k < 32 → o ≢ 0 → o ≢ 4 → ArmedAt4 cfg k o (old_mem_setup cfg)
unfolding old_mem_setup
old_mem_setup-ArmedAt4 cfg k o h n0 n4 = (
  refl,
  simp (bit-bit_or, bit-bit_and)
      (bit_table 32 pulse_bit (λ i b. if ltb i 3 then 1 else b) k (cfg 0) pulse_table h),
  refl,
  ground arith,
)

-- With the registers mapped at the physical address of its program, a reset register of 32 bits, and a
-- stored recording in the mapped buffer: each of the three programs prints the first 2 ^ 20 pairs of
-- the recording in order, with the bits 0 to 2 of the reset register set and its other bits kept, and
-- the writer set up for 2 ^ 20 samples, in the two newer ones at the driver's address; no other
-- register changes. One that could not open its files, or was refused a buffer, fails and writes no
-- register.
pub mains-stored :
    (h : Host) (cfg cfg' : Device) (p : Recording) (k o : ℕ)
    → h.cfg 0x40000000 ≡ some cfg
    → h.cfg 0x40001000 ≡ some cfg'
    → h.ram ≡ some (stored p)
    → IsWord cfg
    → IsWord cfg'
    → k < 32
    → o ≢ 0
    → o ≢ 4
    → o ≢ 8
    → let pairs = pairs_of p 0 (1024 * 1024) in
      Ends (opens h) (mem_main h) pairs (Armed h.ioctl_size cfg k o)
      × Ends (opens h) (uio_mem_main h) pairs (Armed h.ioctl_size cfg' k o)
      × Ends (not (ltb_ℤ h.mem_opened (pos 0))) (old_mem_main h) pairs (ArmedAt4 cfg k o)
mains-stored h cfg cfg' p k o c c' r w w' l n0 n4 n8 =
    let pairs = pairs_of p 0 (1024 * 1024) in
    let size = h.ioctl_size in
    (
      to-Ends (opens h) (mem_main h) (mem_setup size cfg) pairs (Armed size cfg k o)
          (mem_main-eq h cfg p c r) (mem_setup-Armed size cfg k o w l n0 n4 n8),
      to-Ends (opens h) (uio_mem_main h) (uio_mem_setup size cfg') pairs (Armed size cfg' k o)
          (uio_mem_main-eq h cfg' p c' r)
          (subst (Armed size cfg' k o) (sym (uio_mem_setup-mem_setup size cfg'))
            (mem_setup-Armed size cfg' k o w' l n0 n4 n8)),
      to-Ends (not (ltb_ℤ h.mem_opened (pos 0))) (old_mem_main h) (old_mem_setup cfg) pairs
          (ArmedAt4 cfg k o) (old_mem_main-eq h cfg p c r) (old_mem_setup-ArmedAt4 cfg k o l n0 n4),
    )
