-- ===== src/Venus/Port.antt =====
-- The serial line and the checksum in uart_rp.c and nmea_rp.c of apps/rp_venusGPS: a second copy of
-- these functions of projects/lago_v1_3.
use rp_ecosystem.Base.{
  ℕ, ◌+◌, ◌-◌, bit_or, bit_xor, List, [], ◌∷◌, ◌++◌, Option, none, some, Bytes, take, drop, set,
  length, ◌==◌, if◌then◌else◌, ◌≡◌, refl, ap,
}
use rp_ecosystem.Base.Int.{ℤ, pos, negsuc, eqb_ℤ, ltb_ℤ, pos_part, to_word}
use rp_ecosystem.Base.Text.{codes}
use rp_ecosystem.Base.Libc.{strtol, strchr, contains}
use rp_ecosystem.Nmea.Uart.{Read, line, reading, readln_from, rp_uart_readln}
use rp_ecosystem.Nmea.Port.{
  Flags, Port, Printed, returned, faulted, rp_uart_init, rp_uart_config, block_of, write_block,
  rp_uart_println, rp_uart_close,
}
use rp_ecosystem.Nmea.Sentence.{
  empty, nmea_gpgga, nmea_gprmc, nmea_unknown, nmea_checksum_err, rest_of, sum_to_star,
  rp_nmea_valid_checksum, rp_nmea_get_message_type,
}

-- `rp_UartInit`, with what `open` answers.
unfoldable pub venus_uart_init : ℤ → Port → Port × ℤ
venus_uart_init opened p =
    let p' = record p { uart_fd = opened } in
    if eqb_ℤ opened (negsuc 0) then (p', negsuc 0) else (p', pos 0)

-- `rp_UartConfig`.
unfoldable pub venus_uart_config : Flags → Port → Port
venus_uart_config f p = record p {
  settings = record {
    c_iflag = f.ignpar;
    c_oflag = 0;
    c_cflag = bit_or (bit_or (bit_or f.b9600 f.cs8) f.clocal) f.cread;
    c_lflag = 0;
  };
}

-- The block of `len + 1` bytes behind `strcpy` and the two assignments, from what it held before.
unfoldable pub venus_block_of : Bytes → Bytes → ℕ → Bytes
venus_block_of text old len =
    let copied = take (len + 1) (text ++ 0 ∷ drop (length text + 1) old) in
    set (set copied (len - 1) b'\r') len b'\n'

-- From `write` on, with its answer: it sends as many bytes as it says.
unfoldable pub venus_write_block : Bytes → ℤ → Port → Printed
venus_write_block block count p =
    if ltb_ℤ count (pos 0)
    then returned (record p { leaked = p.leaked + 1 }) (negsuc 0)
    else returned (record p { sent = p.sent ++ take (pos_part count) block }) (pos 0)

-- `rp_UartPrintln(text, len)`, with the block that `malloc` gives and what it holds, and the
-- answer of `write`.
unfoldable pub venus_uart_println : Option Bytes → ℤ → Bytes → ℕ → Port → Printed
unfolding venus_write_block
venus_uart_println malloc count text len p =
    if eqb_ℤ p.uart_fd (negsuc 0) then returned p (pos 0) else (elim malloc [
      | none ↦ faulted
      | some old ↦
          if len == 0
          then faulted
          else venus_write_block (venus_block_of text old len) count
              (record p { overrun = p.overrun + (length text - len) })
    ])

unfoldable pub venus_readln_from : Bytes → List (Option ℕ) → Read
venus_readln_from b [] = reading b
venus_readln_from b (none ∷ reads) = venus_readln_from b reads
venus_readln_from b (some c ∷ reads) =
    let rest = venus_readln_from (b ++ c ∷ []) reads in
    if c == b'\n' then line (b ++ 0 ∷ []) reads else rest

-- `rp_UartReadln(buffer, len)`.
unfoldable pub venus_uart_readln : ℕ → List (Option ℕ) → Read
unfolding venus_readln_from
venus_uart_readln len reads = venus_readln_from [] reads

-- `rp_UartClose`: the variable keeps the descriptor.
unfoldable pub venus_uart_close : List ℤ → Port → List ℤ
venus_uart_close closed p = p.uart_fd ∷ closed

-- The loop that sums the bytes up to the next `*`.
unfoldable pub venus_sum_to_star : ℕ → Bytes → Option ℕ
venus_sum_to_star sum [] = none
venus_sum_to_star sum (p ∷ message) =
    if p == b'*' then some sum else venus_sum_to_star (bit_xor sum p) message

unfoldable pub venus_nmea_valid_checksum : Bytes → Option ℕ
unfolding venus_sum_to_star
venus_nmea_valid_checksum message = elim (strchr message b'*') [
  | none ↦ none
  | some star ↦
      let checksum = to_word 8 (strtol 16 (rest_of star)) in
      elim (venus_sum_to_star 0 (rest_of message)) [
        | none ↦ none
        | some sum ↦ some (if sum == checksum then empty else nmea_checksum_err)
      ]
]

unfoldable pub venus_nmea_get_message_type : Bytes → Option ℕ
unfolding venus_nmea_valid_checksum
venus_nmea_get_message_type message = elim (venus_nmea_valid_checksum message) [
  | none ↦ none
  | some checksum ↦ some (
      if checksum == empty
      then (if contains message (codes "$GPGGA")
          then nmea_gpgga
          else if contains message (codes "$GPRMC")
          then nmea_gprmc
          else nmea_unknown)
      else checksum)
]

readln_from-copy :
    (b : Bytes) (reads : List (Option ℕ)) → venus_readln_from b reads ≡ readln_from b reads
unfolding venus_readln_from readln_from
readln_from-copy b [] = refl
readln_from-copy b (none ∷ reads) = readln_from-copy b reads
readln_from-copy b (some c ∷ reads) = rw (readln_from-copy (b ++ c ∷ []) reads) refl

sum_to_star-copy : (sum : ℕ) (s : Bytes) → venus_sum_to_star sum s ≡ sum_to_star sum s
unfolding venus_sum_to_star sum_to_star
sum_to_star-copy sum [] = refl
sum_to_star-copy sum (p ∷ s) = rw (sum_to_star-copy (bit_xor sum p) s) refl

valid_checksum-copy :
    (message : Bytes) → venus_nmea_valid_checksum message ≡ rp_nmea_valid_checksum message
unfolding venus_nmea_valid_checksum rp_nmea_valid_checksum
valid_checksum-copy message =
    ap
      (λ (sum : Option ℕ). elim (strchr message b'*') [
        | none ↦ none
        | some star ↦
            let checksum = to_word 8 (strtol 16 (rest_of star)) in
            elim sum [
              | none ↦ none
              | some sum ↦ some (if sum == checksum then empty else nmea_checksum_err)
            ]
      ])
      (sum_to_star-copy 0 (rest_of message))

-- Both programs send the same bytes for a line, on every answer of the system, read the same lines,
-- and give a sentence the same type.
copies-line :
    (malloc : Option Bytes) (count : ℤ) (text : Bytes) (len : ℕ) (p : Port)
    (reads : List (Option ℕ))
    → (venus_uart_println malloc count text len p ≡ rp_uart_println malloc count text len p)
      × (venus_uart_readln len reads ≡ rp_uart_readln len reads)
      × (venus_nmea_get_message_type text ≡ rp_nmea_get_message_type text)
unfolding venus_uart_println venus_write_block venus_block_of venus_uart_readln
    venus_nmea_get_message_type rp_uart_println write_block block_of rp_uart_readln
    rp_nmea_get_message_type
copies-line malloc count text len p reads = (
  refl,
  readln_from-copy [] reads,
  rw (valid_checksum-copy text, venus_nmea_get_message_type) refl,
)

-- They open, set and close the line alike.
copies-port :
    (opened : ℤ) (f : Flags) (p : Port) (closed : List ℤ)
    → (venus_uart_init opened p ≡ rp_uart_init opened p)
      × (venus_uart_config f p ≡ rp_uart_config f p)
      × (venus_uart_close closed p ≡ rp_uart_close closed p)
unfolding venus_uart_init venus_uart_config venus_uart_close rp_uart_init rp_uart_config
    rp_uart_close
copies-port opened f p closed = (refl, refl, refl)
