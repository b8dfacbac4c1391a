-- ===== src/Server/Stream.antt =====
-- The inner loop of `main`: the halves of the memory are sent in turn, each when the writer has left
-- it. The socket and the position register are arguments.
use rp_ecosystem.Base.{
  ℕ, ◌*◌, Bool, true, false, ◌&&◌, ◌||◌, List, [], ◌∷◌, ltb, ◌==◌, if◌then◌else◌,
}
use rp_ecosystem.Base.Int.{ℤ, pos, ltb_ℤ, signed}

-- A round of the loop: the word of `*rx_cntr`, and whether `send` takes the bytes.
pub record Turn : Type 0 where
  pub rx_cntr : ℕ
  pub taken : Bool

-- `limit`, and the offsets whose bytes were taken with the position at that time, the last first.
pub record Link : Type 0 where
  pub limit : ℕ
  pub sent : List (ℕ × ℤ)

abbrev pub half_words : ℕ
half_words = 32 * 1024

abbrev pub half_bytes : ℕ
half_bytes = 256 * 1024

-- `position = *rx_cntr;`, an `int`.
unfoldable pub position_of : ℕ → ℤ
position_of word = signed 32 word

-- The test of the loop.
unfoldable pub ready : ℕ → ℤ → Bool
ready limit position =
    (ltb 0 limit && ltb_ℤ (pos limit) position) || (limit == 0 && ltb_ℤ position (pos half_words))

-- One round: the state, and whether the loop goes on.
unfoldable pub stream_round : Turn → Link → Link × Bool
unfolding ready
stream_round t l =
    let position = position_of t.rx_cntr in
    let offset = if ltb 0 l.limit then 0 else half_bytes in
    let limit = if ltb 0 l.limit then 0 else half_words in
    if ready l.limit position
    then (if t.taken
        then (record { limit = limit; sent = (offset, position) ∷ l.sent }, true)
        else (record l { limit = limit }, false))
    else (l, true)

-- `while(!interrupted)`, on the rounds up to the signal; a failed `send` leaves the loop before. With
-- the state, whether the signal has come.
unfoldable pub stream_loop : List Turn → Link → Link × Bool
stream_loop [] l = (l, true)
stream_loop (t ∷ ts) l =
    let (l', goes_on) = stream_round t l in
    let rest = stream_loop ts l' in if goes_on then rest else (l', false)

-- `limit = 32*1024;` and the loop of one client.
unfoldable pub stream : List Turn → Link × Bool
unfolding stream_loop
stream ts = stream_loop ts (record { limit = half_words; sent = [] })
