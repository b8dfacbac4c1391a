-- ===== src/Nmea/Port.antt =====
-- `rp_UartInit`, `rp_UartConfig`, `rp_UartPrintln` and `rp_UartClose` of uart_rp.c.
use rp_ecosystem.Base.{
  ℕ, zero, suc, ◌+◌, ◌-◌, ◌≤◌, ◌<◌, bit_or, List, [], ◌∷◌, ◌++◌, Option, none, some, false, Bytes,
  take, drop, set, length, length-append, length-take_le, take-all, ◌==◌, if◌then◌else◌, ◌≡◌, refl,
  arith, ◌∙◌, ap,
}
use rp_ecosystem.Base.Int.{ℤ, pos, negsuc, eqb_ℤ, ltb_ℤ, pos_part}

-- The flags of `struct termios`.
pub record Termios : Type 0 where
  pub c_iflag : ℕ
  pub c_oflag : ℕ
  pub c_cflag : ℕ
  pub c_lflag : ℕ

-- The values of termios.h that the code names.
pub record Flags : Type 0 where
  pub b9600 : ℕ
  pub cs8 : ℕ
  pub clocal : ℕ
  pub cread : ℕ
  pub ignpar : ℕ

-- `uart_fd`, the line's settings, the bytes that were sent, the blocks that were never freed, and the
-- bytes written behind the end of a block.
pub record Port : Type 0 where
  pub uart_fd : ℤ
  pub settings : Termios
  pub sent : Bytes
  pub leaked : ℕ
  pub overrun : ℕ

-- `rp_UartInit`, with what `open` answers.
unfoldable pub rp_uart_init : ℤ → Port → Port × ℤ
rp_uart_init opened p =
    let p' = record p { uart_fd = opened } in
    if eqb_ℤ opened (negsuc 0) then (p', negsuc 0) else (p', pos 0)

-- `rp_UartConfig`.
unfoldable pub rp_uart_config : Flags → Port → Port
rp_uart_config f p = record p {
  settings = record {
    c_iflag = f.ignpar;
    c_oflag = 0;
    c_cflag = bit_or (bit_or (bit_or f.b9600 f.cs8) f.clocal) f.cread;
    c_lflag = 0;
  };
}

-- The block of `len + 1` bytes behind `strcpy` and the two assignments, from what it held before.
unfoldable pub block_of : Bytes → Bytes → ℕ → Bytes
block_of line old len =
    let copied = take (len + 1) (line ++ 0 ∷ drop (length line + 1) old) in
    set (set copied (len - 1) b'\r') len b'\n'

-- A call of `rp_UartPrintln`: it returns, or it writes through a null pointer or in front of its block.
pub data Printed : Type 0 where
  returned : Port → ℤ → Printed
  faulted : Printed

-- From `write` on, with its answer: it sends as many bytes as it says.
unfoldable pub write_block : Bytes → ℤ → Port → Printed
write_block block count p =
    if ltb_ℤ count (pos 0)
    then returned (record p { leaked = p.leaked + 1 }) (negsuc 0)
    else returned (record p { sent = p.sent ++ take (pos_part count) block }) (pos 0)

-- `rp_UartPrintln(line, len)`, with the block that `malloc` gives and what it holds, and the
-- answer of `write`.
unfoldable pub rp_uart_println : Option Bytes → ℤ → Bytes → ℕ → Port → Printed
unfolding write_block
rp_uart_println malloc count line len p =
    if eqb_ℤ p.uart_fd (negsuc 0) then returned p (pos 0) else (elim malloc [
      | none ↦ faulted
      | some old ↦
          if len == 0
          then faulted
          else write_block (block_of line old len) count
              (record p { overrun = p.overrun + (length line - len) })
    ])

-- `rp_UartClose`: the variable keeps the descriptor.
unfoldable pub rp_uart_close : List ℤ → Port → List ℤ
rp_uart_close closed p = p.uart_fd ∷ closed

-- The bytes at two places next to each other, set in a list that reaches so far.
set_end :
    (xs : Bytes) (k a b : ℕ)
    → suc k < length xs
    → set (set (take (suc (suc k)) xs) k a) (suc k) b ≡ take k xs ++ a ∷ b ∷ []
set_end [] k a b h = absurd (omega arith)
set_end (x ∷ []) k a b h = absurd (omega arith)
set_end (x ∷ (y ∷ xs)) zero a b h = refl
set_end (x ∷ (y ∷ xs)) (suc k) a b h = ap (λ t. x ∷ t) (set_end (y ∷ xs) k a b (omega arith))

take-append : (k : ℕ) (xs ys : Bytes) → k ≤ length xs → take k (xs ++ ys) ≡ take k xs
take-append zero xs ys h = refl
take-append (suc k) [] ys h = absurd (omega arith)
take-append (suc k) (x ∷ xs) ys h = ap (λ t. x ∷ t) (take-append k xs ys (omega arith))

length-drop : (k : ℕ) (xs : Bytes) → length (drop k xs) ≡ length xs - k
length-drop zero xs = omega arith
length-drop (suc k) [] = omega arith
length-drop (suc k) (x ∷ xs) = omega (arith, length-drop k xs)

block_of-line :
    (line old : Bytes) (k : ℕ)
    → length old ≡ k + 2
    → k ≤ length line
    → block_of line old (suc k) ≡ take k line ++ b'\r' ∷ b'\n' ∷ []
unfolding block_of
block_of-line line old k h le =
    let rest = 0 ∷ drop (length line + 1) old in
    let e : length (line ++ rest) ≡ length line + length rest = length-append line rest in
    let long : suc k < length (line ++ rest) =
      omega (arith, e, length-drop (length line + 1) old) in
    let two : suc k + 1 ≡ suc (suc k) = omega arith in
    let one : suc k - 1 ≡ k = omega arith in
    rw (two, one) (set_end (line ++ rest) k b'\r' b'\n' long)
    ∙ ap (λ t. t ++ b'\r' ∷ b'\n' ∷ []) (take-append k line rest le)

-- With an open port and a block, a call with a length of at most one more than the line's sends the
-- first `len - 1` bytes of the line, a carriage return and a line feed, if the system takes all of
-- them, and frees the block; what of the line is longer than `len` is written behind the block. If
-- `write` fails, the call returns -1 and the block is never freed.
pub rp_uart_println-sent :
    (p : Port) (line old : Bytes) (k : ℕ)
    → eqb_ℤ p.uart_fd (negsuc 0) ≡ false
    → length old ≡ k + 2
    → k ≤ length line
    → let p' = record p { overrun = p.overrun + (length line - suc k) } in
      (rp_uart_println (some old) (pos (k + 2)) line (suc k) p
        ≡ returned (record p' { sent = p.sent ++ (take k line ++ b'\r' ∷ b'\n' ∷ []) }) (pos 0))
      × (rp_uart_println (some old) (negsuc 0) line (suc k) p
          ≡ returned (record p' { leaked = p.leaked + 1 }) (negsuc 0))
unfolding rp_uart_println write_block
rp_uart_println-sent p line old k o h le =
    let out = take k line ++ b'\r' ∷ b'\n' ∷ [] in
    let short : length out ≤ k + 2 =
      omega (arith, length-append (take k line) (b'\r' ∷ b'\n' ∷ []), length-take_le k line) in
    let whole : take (k + 2) (block_of line old (suc k)) ≡ out =
      ap (take (k + 2)) (block_of-line line old k h le) ∙ take-all (k + 2) out short in
    (ground (arith, whole), ground arith)
