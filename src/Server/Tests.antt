-- ===== src/Server/Tests.antt =====
-- The theorems of the server and its client at concrete inputs.
use rp_ecosystem.Base.{
  ℕ, ◌-◌, ◌≤◌, ◌^◌, Bool, true, false, [], ◌∷◌, some, ◌≡◌, refl, arith, length, List,
}
use rp_ecosystem.Base.Bits.{bit}
use rp_ecosystem.Base.Int.{pos, negsuc, signed}
use rp_ecosystem.Server.Stream.{Turn, half_bytes, stream, stream_round, ready, position_of}
use rp_ecosystem.Server.Control.{Server}
use rp_ecosystem.Server.Halves.{InTurn, stream-InTurn}
use rp_ecosystem.Server.Live.{Laps, begun, lap, stream-Laps}
use rp_ecosystem.Server.Start.{Answers, launch, Leaves, launch-reset}
use rp_ecosystem.Server.Client.{received, printed}
use rp_ecosystem.Server.Words.{encode}

-- The writer at a word, and a transfer that succeeds or fails.
abbrev at_word : ℕ → Bool → Turn
at_word n taken = record { rx_cntr = n; taken = taken }

-- Two laps, with a round in which the server waits, and then a failure.
abbrev rounds : List Turn
rounds =
    at_word 100 true
    ∷ at_word 40000 true
    ∷ at_word 50000 true
    ∷ at_word 20 true
    ∷ at_word 32769 true
    ∷ at_word 0 true
    ∷ at_word 40000 false
    ∷ []

rounds_sent : stream rounds ≡ (
  record {
    limit = 0;
    sent = (half_bytes, pos 0) ∷ (0, pos 32769) ∷ (half_bytes, pos 20) ∷ (0, pos 40000) ∷ [];
  },
  false,
)
unfolding stream stream_round ready position_of signed
rounds_sent = refl

stream-InTurn_example : InTurn (stream rounds).0.sent
stream-InTurn_example = stream-InTurn rounds

abbrev two_laps : List Turn
two_laps = at_word 40000 true ∷ at_word 20 true ∷ at_word 32769 true ∷ at_word 0 true ∷ []

two_laps-Laps : Laps 2 two_laps
unfolding position_of signed
two_laps-Laps =
    lap [] (at_word 40000 true) [] (at_word 20 true) refl refl
      (lap [] (at_word 32769 true) [] (at_word 0 true) refl refl (begun []))

stream-Laps_example : 4 ≤ length (stream two_laps).0.sent
stream-Laps_example = stream-Laps 2 two_laps two_laps-Laps (refl, (refl, (refl, (refl, tt))))

abbrev idle : Server
idle = record { rx_rst = 0xFF; rx_rate = 1; rx_addr = 0; clients = [] }

-- Everything is to be had but the mapping of the status, and one client comes.
abbrev answers : Answers
answers = record {
  mem_opened = pos 3;
  sts_mapped = false;
  cfg_mapped = true;
  cma_opened = pos 3;
  ioctl_result = pos 0;
  size = 0x1000;
  socket = pos 4;
  bound = pos 0;
}

launch-reset_example :
    Leaves
      (launch answers (some rounds ∷ []) idle)
      (λ left. (bit left.rx_rst 1 ≡ 0) × (left.rx_rate ≡ 4) × (left.rx_addr ≡ 0x1000))
      (λ left.
        (answers.sts_mapped ≡ false)
        × (bit left.rx_rst 1 ≡ 1)
        × (left.rx_rate ≡ 4)
        × (left.rx_addr ≡ 0x1000))
launch-reset_example = launch-reset answers (some rounds ∷ []) idle 1 refl (omega arith)

-- Two words received into a buffer of zeros.
abbrev two_words : List ℕ
two_words = 7 ∷ (2 ^ 32 - 1) ∷ []

printed_words : printed (received (encode two_words) (λ a. 0)) 0 3 ≡ pos 7 ∷ negsuc 0 ∷ pos 0 ∷ []
unfolding printed signed
printed_words = refl
