-- ===== src/Server/Words.antt =====
-- What the client prints of a transfer of whole words.
use rp_ecosystem.Base.{
  ℕ, zero, suc, ◌+◌, ◌*◌, ◌/◌, ◌%◌, ◌^◌, ◌<◌, ◌≡◌, refl, ap, ◌∙◌, arith, true, false, List, [], ◌∷◌,
  Bytes, get_or, length, ltb, if◌then◌else◌, Bool-cases, inl, inr,
}
use rp_ecosystem.Base.Int.{pos, signed}
use rp_ecosystem.Server.Client.{Memory, word_of, received, printed}

-- The bytes that the server's memory holds of words, the lowest first.
abbrev pub encode : List ℕ → Bytes
encode [] = []
encode (w ∷ ws) =
    w % 2 ^ 8 ∷ w / 2 ^ 8 % 2 ^ 8 ∷ w / 2 ^ 16 % 2 ^ 8 ∷ w / 2 ^ 24 % 2 ^ 8 ∷ encode ws

abbrev pub AreWords : List ℕ → Type 0
AreWords [] = Unit
AreWords (w ∷ ws) = (w < 2 ^ 32) × AreWords ws

length-encode : (ws : List ℕ) → length (encode ws) ≡ 4 * length ws
length-encode [] = omega arith
length-encode (w ∷ ws) = omega (arith, length-encode ws)

-- The word whose four bytes stand from an index on.
abbrev word_in : Bytes → ℕ → ℕ
word_in s i =
    get_or s (4 * i) 0
    + 2 ^ 8 * get_or s (4 * i + 1) 0
    + 2 ^ 16 * get_or s (4 * i + 2) 0
    + 2 ^ 24 * get_or s (4 * i + 3) 0

word_in-encode :
    (ws : List ℕ) (i : ℕ) → AreWords ws → i < length ws → word_in (encode ws) i ≡ get_or ws i 0
word_in-encode [] i h l = absurd (omega arith)
word_in-encode (w ∷ ws) zero h l = omega (arith, h.0)
word_in-encode (w ∷ ws) (suc i) h l =
    let a : 4 * suc i ≡ suc (suc (suc (suc (4 * i)))) = omega arith in
    let b : 4 * suc i + 1 ≡ suc (suc (suc (suc (4 * i + 1)))) = omega arith in
    let c : 4 * suc i + 2 ≡ suc (suc (suc (suc (4 * i + 2)))) = omega arith in
    let d : 4 * suc i + 3 ≡ suc (suc (suc (suc (4 * i + 3)))) = omega arith in
    rw (b, c, d, a) (word_in-encode ws i h.1 (omega arith))

word_of-received :
    (s : Bytes) (m : Memory) (i n : ℕ)
    → length s ≡ 4 * n
    → word_of (received s m) i ≡ (if ltb i n then word_in s i else word_of m i)
word_of-received s m i n h = elim (Bool-cases (ltb i n)) [
  | inl inside ↦
      let a : ltb (4 * i) (length s) ≡ true = ground arith in
      let b : ltb (4 * i + 1) (length s) ≡ true = ground arith in
      let c : ltb (4 * i + 2) (length s) ≡ true = ground arith in
      let d : ltb (4 * i + 3) (length s) ≡ true = ground arith in rw (inside, a, b, c, d) refl
  | inr behind ↦
      let a : ltb (4 * i) (length s) ≡ false = ground arith in
      let b : ltb (4 * i + 1) (length s) ≡ false = ground arith in
      let c : ltb (4 * i + 2) (length s) ≡ false = ground arith in
      let d : ltb (4 * i + 3) (length s) ≡ false = ground arith in rw (behind, a, b, c, d) refl
]

get_or-printed :
    (m : Memory) (j n i : ℕ)
    → i < n
    → get_or (printed m j n) i (pos 0) ≡ signed 32 (word_of m (j + i))
unfolding printed
get_or-printed m j zero i h = absurd (omega arith)
get_or-printed m j (suc n) zero h = let e : j + 0 ≡ j = omega arith in rw e refl
get_or-printed m j (suc n) (suc i) h =
    let e : j + suc i ≡ suc j + i = omega arith in rw e (get_or-printed m (suc j) n i (omega arith))

-- When the client receives n words it prints the quotients of 4 * n numbers: the first n are those
-- words, as signed numbers of 32 bits; the others are what its buffer held before.
printed-encode :
    (ws : List ℕ) (m : Memory) (i : ℕ)
    → AreWords ws
    → i < 4 * length ws
    → get_or (printed (received (encode ws) m) 0 (length (encode ws))) i (pos 0)
      ≡ signed 32 (if ltb i (length ws) then get_or ws i 0 else word_of m i)
printed-encode ws m i h l =
    let n = length-encode ws in
    let m' = received (encode ws) m in
    let line : get_or (printed m' 0 (length (encode ws))) i (pos 0)
        ≡ signed 32 (word_of m' (0 + i)) =
      get_or-printed m' 0 (length (encode ws)) i (omega arith) in
    let z : 0 + i ≡ i = omega arith in
    let here : word_of m' i ≡ (if ltb i (length ws) then get_or ws i 0 else word_of m i) =
      word_of-received (encode ws) m i (length ws) n ∙ inside in
    line ∙ ap (λ k. signed 32 (word_of m' k)) z ∙ ap (signed 32) here
  where
    inside :
        (if ltb i (length ws) then word_in (encode ws) i else word_of m i)
        ≡ (if ltb i (length ws) then get_or ws i 0 else word_of m i)
    inside = elim (Bool-cases (ltb i (length ws))) [
      | inl less ↦ rw less (word_in-encode ws i h (ground arith))
      | inr more ↦ rw more refl
    ]
