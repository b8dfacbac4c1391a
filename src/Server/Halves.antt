-- ===== src/Server/Halves.antt =====
-- Which half of the memory is sent when.
use rp_ecosystem.Base.{
  ℕ, zero, suc, Bool, true, false, List, [], ◌∷◌, length, if◌then◌else◌, ◌≡◌, refl, arith, inl, inr,
  Bool-cases,
}
use rp_ecosystem.Base.Int.{ℤ, pos, ltb_ℤ}
use rp_ecosystem.Server.Stream.{
  Turn, Link, half_words, half_bytes, stream_round, stream_loop, stream,
}

abbrev pub even : ℕ → Bool
even zero = true
even (suc n) = if even n then false else true

-- The transfers, the last first: the halves take turns from the first one on, and at each the writer
-- stood in the other half, behind its first word for the first half.
abbrev pub InTurn : List (ℕ × ℤ) → Type 0
InTurn [] = Unit
InTurn ((offset, p) ∷ sent) =
    (offset ≡ (if even (length sent) then 0 else half_bytes))
    × ((if even (length sent) then ltb_ℤ (pos half_words) p else ltb_ℤ p (pos half_words)) ≡ true)
    × InTurn sent

-- `limit` tells the parity of the number of transfers.
abbrev pub Agrees : Link → Type 0
Agrees l = l.limit ≡ (if even (length l.sent) then half_words else 0)

stream_round-InTurn :
    (t : Turn) (l : Link) → Agrees l → InTurn l.sent → InTurn (stream_round t l).0.sent
unfolding stream_round
stream_round-InTurn t l h i = ground arith

pub stream_round-Agrees :
    (t : Turn) (l : Link) → Agrees l → (stream_round t l).1 ≡ true → Agrees (stream_round t l).0
unfolding stream_round
stream_round-Agrees t l h g = ground arith

stream_loop-InTurn :
    (ts : List Turn) (l : Link) → Agrees l → InTurn l.sent → InTurn (stream_loop ts l).0.sent
unfolding stream_loop
stream_loop-InTurn [] l h i = i
stream_loop-InTurn (t ∷ ts) l h i =
    let now : InTurn (stream_round t l).0.sent = stream_round-InTurn t l h i in
    elim (Bool-cases (stream_round t l).1) [
      | inl goes ↦
          let later : InTurn (stream_loop ts (stream_round t l).0).0.sent =
            stream_loop-InTurn ts (stream_round t l).0 (stream_round-Agrees t l h goes) now in
          ground arith
      | inr ends ↦ ground arith
    ]

-- Whatever positions the writer takes and whenever a transfer fails, a client is sent the two halves
-- of the memory in turn, beginning with the first, and each at a time at which the writer's position
-- was in the other half, for the first half behind the first word of the second.
pub stream-InTurn : (ts : List Turn) → InTurn (stream ts).0.sent
unfolding stream
stream-InTurn ts = stream_loop-InTurn ts (record { limit = half_words; sent = [] }) refl tt
