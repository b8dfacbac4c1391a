-- ===== src/Nmea/Uart.antt =====
-- `rp_UartReadln` of uart_rp.c. A read gives a byte, or nothing: then the program sleeps and reads
-- again.
use rp_ecosystem.Base.{
  ℕ, List, [], ◌∷◌, ◌++◌, Option, none, some, ◌==◌, if◌then◌else◌, Bytes, ◌≡◌, ◌≢◌, refl, arith,
  ◌∙◌, ap,
}

-- `line b rest`: the function returns with the bytes b in the buffer, the reads `rest` still to come;
-- `reading b`: the reads are used up with b in the buffer.
pub data Read : Type 0 where
  line : Bytes → List (Option ℕ) → Read
  reading : Bytes → Read

unfoldable pub readln_from : Bytes → List (Option ℕ) → Read
readln_from b [] = reading b
readln_from b (none ∷ reads) = readln_from b reads
readln_from b (some c ∷ reads) =
    let rest = readln_from (b ++ c ∷ []) reads in
    if c == b'\n' then line (b ++ 0 ∷ []) reads else rest

-- `rp_UartReadln(buffer, len)`.
unfoldable pub rp_uart_readln : ℕ → List (Option ℕ) → Read
unfolding readln_from
rp_uart_readln len reads = readln_from [] reads

-- Reads with no end of line, and the bytes that they give.
abbrev pub NoNewline : List (Option ℕ) → Type 0
NoNewline [] = Unit
NoNewline (none ∷ s) = NoNewline s
NoNewline (some c ∷ s) = (c ≢ b'\n') × NoNewline s

abbrev pub received : List (Option ℕ) → Bytes
received [] = []
received (none ∷ s) = received s
received (some c ∷ s) = c ∷ received s

append_one : (b : Bytes) (c : ℕ) (s : Bytes) → (b ++ c ∷ []) ++ s ≡ b ++ c ∷ s
append_one [] c s = refl
append_one (x ∷ b) c s = ap (λ t. x ∷ t) (append_one b c s)

readln_from-received :
    (b : Bytes) (s rest : List (Option ℕ))
    → NoNewline s
    → readln_from b (s ++ some b'\n' ∷ rest) ≡ line (b ++ (received s ++ 0 ∷ [])) rest
unfolding readln_from
readln_from-received b [] rest h = refl
readln_from-received b (none ∷ s) rest h = readln_from-received b s rest h
readln_from-received b (some c ∷ s) rest (n, h) =
    let e = append_one b c (received s ++ 0 ∷ []) in
    let ih = readln_from-received (b ++ c ∷ []) s rest h ∙ ap (λ t. line t rest) e in
    ground (arith, ih)

-- The function returns behind the first end of line with all the bytes before it and a NUL byte in
-- the buffer, whatever length the caller gave, and whichever reads came back empty.
rp_uart_readln-received :
    (len : ℕ) (s rest : List (Option ℕ))
    → NoNewline s
    → rp_uart_readln len (s ++ some b'\n' ∷ rest) ≡ line (received s ++ 0 ∷ []) rest
unfolding rp_uart_readln
rp_uart_readln-received len s rest h = readln_from-received [] s rest h
