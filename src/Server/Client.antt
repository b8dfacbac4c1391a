-- ===== src/Server/Client.antt =====
-- projects/adc_test/client/adc-test-client_lnx.c: what the client prints of what it receives.
use rp_ecosystem.Base.{
  ℕ, zero, suc, ◌+◌, ◌*◌, ◌^◌, Bool, true, false, List, [], ◌∷◌, ◌++◌, Bytes, get_or, length, ltb,
  ◌==◌, if◌then◌else◌,
}
use rp_ecosystem.Base.Int.{ℤ, signed}

-- `buffer`, byte by byte.
abbrev pub Memory : Type 0
Memory = ℕ → ℕ

-- `buffer[i]`, the bit pattern of an `int32_t`, little-endian.
abbrev pub word_of : Memory → ℕ → ℕ
word_of m i = m (4 * i) + 2 ^ 8 * m (4 * i + 1) + 2 ^ 16 * m (4 * i + 2) + 2 ^ 24 * m (4 * i + 3)

-- What `recv` leaves in the buffer.
abbrev pub received : Bytes → Memory → Memory
received bytes m = λ a. if ltb a (length bytes) then get_or bytes a 0 else m a

-- The numbers whose quotients by 2147483647.0 the `for` loop prints, from i on.
unfoldable pub printed : Memory → ℕ → ℕ → List ℤ
printed m i zero = []
printed m i (suc n) = signed 32 (word_of m i) ∷ printed m (suc i) n

-- An answer of `recv`: bytes, or an error.
pub data Answer : Type 0 where
  bytes : Bytes → Answer
  error : Answer

-- `do … while(bytesReceived)`: all that is printed, and whether the loop has ended. An error gives
-- -1, which prints nothing and does not end the loop.
unfoldable pub client_loop : List Answer → Memory → List ℤ × Bool
unfolding printed
client_loop [] m = ([], false)
client_loop (error ∷ answers) m = client_loop answers m
client_loop (bytes s ∷ answers) m =
    let m' = received s m in
    let (out, ended) = client_loop answers m' in
    if length s == 0 then ([], true) else (printed m' 0 (length s) ++ out, ended)
