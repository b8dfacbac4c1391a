-- ===== src/Server/Live.antt =====
-- The server keeps up: a writer that goes round the memory makes it send every half.
use rp_ecosystem.Base.{
  ℕ, zero, suc, ◌+◌, ◌*◌, ◌≤◌, true, false, List, [], ◌∷◌, ◌++◌, length, ◌≡◌, refl, arith,
}
use rp_ecosystem.Base.Int.{pos, ltb_ℤ}
use rp_ecosystem.Server.Halves.{even, Agrees, stream_round-Agrees}
use rp_ecosystem.Server.Stream.{
  Turn, Link, half_words, position_of, ready, stream_round, stream_loop, stream,
}

-- Rounds whose transfers succeed.
abbrev pub Taken : List Turn → Type 0
Taken [] = Unit
Taken (t ∷ ts) = (t.taken ≡ true) × Taken ts

-- A writer in the second half behind its first word, and in the first half.
abbrev pub IsHigh : Turn → Type 0
IsHigh t = ltb_ℤ (pos half_words) (position_of t.rx_cntr) ≡ true

abbrev pub IsLow : Turn → Type 0
IsLow t = ltb_ℤ (position_of t.rx_cntr) (pos half_words) ≡ true

-- At least n times in a sequence of rounds, the writer is seen high and then, later, low.
pub data Laps : ℕ → List Turn → Type 0 where
  begun : (ts : List Turn) → Laps zero ts
  lap :
      {n : ℕ} {rest : List Turn} (xs : List Turn) (h : Turn) (ys : List Turn) (l : Turn)
      → IsHigh h
      → IsLow l
      → Laps n rest
      → Laps (suc n) (xs ++ h ∷ (ys ++ l ∷ rest))

-- A round whose transfer succeeds goes on, and sends nothing less.
round_taken :
    (t : Turn) (l : Link)
    → t.taken ≡ true
    → ((stream_round t l).1 ≡ true) × (length l.sent ≤ length (stream_round t l).0.sent)
unfolding stream_round
round_taken t l h = ground arith

round_high :
    (t : Turn) (l : Link)
    → t.taken ≡ true
    → IsHigh t
    → Agrees l
    → even (length (stream_round t l).0.sent) ≡ false
unfolding stream_round ready
round_high t l h i a = ground arith

round_low :
    (t : Turn) (l : Link)
    → t.taken ≡ true
    → IsLow t
    → Agrees l
    → even (length (stream_round t l).0.sent) ≡ true
unfolding stream_round ready
round_low t l h i a = ground arith

stream_loop-Agrees : (ts : List Turn) (l : Link) → Taken ts → Agrees l → Agrees (stream_loop ts l).0
unfolding stream_loop
stream_loop-Agrees [] l h a = a
stream_loop-Agrees (t ∷ ts) l h a =
    let r : ((stream_round t l).1 ≡ true) × (length l.sent ≤ length (stream_round t l).0.sent) =
      round_taken t l h.0 in
    let ih : Agrees (stream_loop ts (stream_round t l).0).0 =
      stream_loop-Agrees ts (stream_round t l).0 h.1 (stream_round-Agrees t l a r.0) in
    ground arith

stream_loop_grows :
    (ts : List Turn) (l : Link) → Taken ts → length l.sent ≤ length (stream_loop ts l).0.sent
unfolding stream_loop
stream_loop_grows [] l h = ground arith
stream_loop_grows (t ∷ ts) l h =
    let r : ((stream_round t l).1 ≡ true) × (length l.sent ≤ length (stream_round t l).0.sent) =
      round_taken t l h.0 in
    let ih : length (stream_round t l).0.sent
        ≤ length (stream_loop ts (stream_round t l).0).0.sent =
      stream_loop_grows ts (stream_round t l).0 h.1 in
    ground arith

stream_loop-++ :
    (xs : List Turn) (t : Turn) (ys : List Turn) (l : Link)
    → Taken (xs ++ t ∷ ys)
    → stream_loop (xs ++ t ∷ ys) l ≡ stream_loop ys (stream_round t (stream_loop xs l).0).0
unfolding stream_loop
stream_loop-++ [] t ys l h =
    let r : ((stream_round t l).1 ≡ true) × (length l.sent ≤ length (stream_round t l).0.sent) =
      round_taken t l h.0 in
    ground arith
stream_loop-++ (x ∷ xs) t ys l h =
    let r : ((stream_round x l).1 ≡ true) × (length l.sent ≤ length (stream_round x l).0.sent) =
      round_taken x l h.0 in
    let ih = stream_loop-++ xs t ys (stream_round x l).0 h.1 in ground arith

Taken-++ : (xs : List Turn) (ys : List Turn) → Taken (xs ++ ys) → Taken xs × Taken ys
Taken-++ [] ys h = (tt, h)
Taken-++ (x ∷ xs) ys h = let r = Taken-++ xs ys h.1 in ((h.0, r.0), r.1)

later_parity : (a : ℕ) (b : ℕ) → a ≤ b → even a ≡ true → even b ≡ false → suc a ≤ b
later_parity a b h e o = ground arith

later_parity_odd : (a : ℕ) (b : ℕ) → a ≤ b → even a ≡ false → even b ≡ true → suc a ≤ b
later_parity_odd a b h e o = ground arith

loop-Laps :
    (n : ℕ) (ts : List Turn) (l : Link)
    → Laps n ts
    → Taken ts
    → Agrees l
    → even (length l.sent) ≡ true
    → 2 * n + length l.sent ≤ length (stream_loop ts l).0.sent
loop-Laps n ts l (begun _) k a e =
    let g : length l.sent ≤ length (stream_loop ts l).0.sent = stream_loop_grows ts l k in
    omega arith
loop-Laps _ _ l (lap {n} {rest} xs h ys w hi lo laps) k a e =
    let k1 : Taken xs × Taken (h ∷ (ys ++ w ∷ rest)) = Taken-++ xs (h ∷ (ys ++ w ∷ rest)) k in
    let k2 : Taken ys × Taken (w ∷ rest) = Taken-++ ys (w ∷ rest) k1.1.1 in
    let l1 = (stream_loop xs l).0 in
    let l2 = (stream_round h l1).0 in
    let l3 = (stream_loop ys l2).0 in
    let l4 = (stream_round w l3).0 in
    let a1 = stream_loop-Agrees xs l k1.0 a in
    let a2 = stream_round-Agrees h l1 a1 (round_taken h l1 k1.1.0).0 in
    let a3 = stream_loop-Agrees ys l2 k2.0 a2 in
    let a4 = stream_round-Agrees w l3 a3 (round_taken w l3 k2.1.0).0 in
    let odd : even (length l2.sent) ≡ false = round_high h l1 k1.1.0 hi a1 in
    let ev : even (length l4.sent) ≡ true = round_low w l3 k2.1.0 lo a3 in
    let g1 : length l.sent ≤ length l1.sent = stream_loop_grows xs l k1.0 in
    let g2 : length l1.sent ≤ length l2.sent = (round_taken h l1 k1.1.0).1 in
    let g3 : length l2.sent ≤ length l3.sent = stream_loop_grows ys l2 k2.0 in
    let g4 : length l3.sent ≤ length l4.sent = (round_taken w l3 k2.1.0).1 in
    let p1 : suc (length l.sent) ≤ length l2.sent =
      later_parity (length l.sent) (length l2.sent) (omega arith) e odd in
    let p2 : suc (length l2.sent) ≤ length l4.sent =
      later_parity_odd (length l2.sent) (length l4.sent) (omega arith) odd ev in
    let ih : 2 * n + length l4.sent ≤ length (stream_loop rest l4).0.sent =
      loop-Laps n rest l4 laps k2.1.1 a4 ev in
    rw (stream_loop-++ xs h (ys ++ w ∷ rest) l k, stream_loop-++ ys w rest l2 k1.1.1) (omega arith)

-- If every transfer succeeds, then each time the writer is seen behind the first word of the second
-- half and later in the first half, the client has been sent both halves once more: n such laps give
-- it at least 2 * n transfers.
pub stream-Laps :
    (n : ℕ) (ts : List Turn) → Laps n ts → Taken ts → 2 * n ≤ length (stream ts).0.sent
unfolding stream
stream-Laps n ts laps k =
    let go : 2 * n + 0 ≤ length (stream_loop ts (record { limit = half_words; sent = [] })).0.sent =
      loop-Laps n ts (record { limit = half_words; sent = [] }) laps k refl refl in
    omega arith
