-- ===== src/Lago/Reader.antt =====
-- Which words of the ring a call of `read_buffer` reads, and where it leaves `current`.
use rp_ecosystem.Base.{
  ℕ, zero, suc, ◌+◌, ◌-◌, ◌≤◌, ◌<◌, Bool, false, List, [], ◌∷◌, ltb, ◌==◌, ◌&&◌, if◌then◌else◌, ◌≡◌,
  ◌≢◌, refl, ◌∙◌, arith,
}
use rp_ecosystem.Base.Int.{ℤ, pos, negsuc, ◌+ℤ◌, to_word, ◌≤ℤ◌, ltb_ℤ, eqb_ℤ}
use rp_ecosystem.Zynq.Device.{Board}
use rp_ecosystem.Lago.Acquisition.{Acq}
use rp_ecosystem.Lago.Words.{decode}
use rp_ecosystem.Lago.Buffer.{
  limit, range, wrapped, read_words, first_call, read_range, read_buffer,
}

-- Where a call must leave a reader at c when the writer is at word p of the ring: a reader at the word
-- before the last starts again at the beginning and reads up to the writer; a writer more than two
-- words ahead is followed up to the word before it; a writer more than one word behind is answered by
-- reading up to the end of the ring, if a word is left there; otherwise nothing is read. The reader
-- stands at the last word read.
abbrev pub expected : ℤ → ℕ → ℤ
expected c p =
    if eqb_ℤ c (pos (limit - 2))
    then (if p == 0 then negsuc 1 else pos (p - 1))
    else if ltb_ℤ (c +ℤ pos 2) (pos p)
    then pos (p - 1)
    else if ltb_ℤ (pos (p + 1)) c && ltb_ℤ c (pos (limit - 2))
    then pos (limit - 1)
    else c

-- `current` after a call, from its value before and the word of the writer.
unfoldable pub after : ℤ → ℕ → ℤ
unfolding read_range
after c p = let (init, end) = read_range c p in if ltb init end then pos (end - 1) else wrapped c

current-read_words :
    (b : Board) (o : Bool) (ring : ℕ → ℕ) (n i : ℕ) (a : Acq)
    → (read_words b o ring n i a).current ≡ (if ltb 0 n then pos (i + n - 1) else a.current)
unfolding read_words
current-read_words b o ring zero i a = ground arith
current-read_words b o ring (suc n) i a = ground (
  arith,
  current-read_words b o ring n (i + 1) (record (decode b o (ring i) a) { current = pos i }),
)

current-first_call :
    (b : Board) (o : Bool) (now : ℕ) (a : Acq) → (first_call b o now a).current ≡ a.current
unfolding first_call
current-first_call b o now a = ground arith

after_count_lem :
    (c : ℤ) (i e : ℕ)
    → (if ltb 0 (e - i) then pos (i + (e - i) - 1) else c) ≡ (if ltb i e then pos (e - 1) else c)
after_count_lem c i e = ground arith

after-count :
    (c : ℤ) (p : ℕ)
    → (if ltb 0 ((read_range c p).1 - (read_range c p).0)
        then pos ((read_range c p).0 + ((read_range c p).1 - (read_range c p).0) - 1)
        else wrapped c)
      ≡ after c p
unfolding after
after-count c p = after_count_lem (wrapped c) (read_range c p).0 (read_range c p).1

after-read_buffer :
    (b : Board) (o : Bool) (ring : ℕ → ℕ) (now p : ℕ) (a : Acq)
    → (read_buffer b o ring now p a).current ≡ after a.current p
unfolding read_buffer
after-read_buffer b o ring now p a =
    let a' : Acq = if a.f_first_time then first_call b o now a else a in
    let same : a'.current ≡ a.current = ground (arith, current-first_call b o now a) in
    let w = read_range a'.current p in
    let start = record a' { current = wrapped a'.current } in
    current-read_words b o ring (w.1 - w.0) w.0 start ∙ rw same (after-count a.current p)

-- From any position of the reader from -2 on and of the writer in the ring, a call reads words of
-- the ring only, and leaves the reader at such a position.
pub read_range_bounds :
    (c : ℤ) (p : ℕ)
    → negsuc 1 ≤ℤ c
    → c ≤ℤ pos (limit - 1)
    → p ≤ limit
    → ((read_range c p).1 ≤ limit) × (negsuc 1 ≤ℤ after c p) × (after c p ≤ℤ pos (limit - 1))
unfolding read_range after ◌+ℤ◌ to_word
read_range_bounds c p h k q = ground arith

after-expected :
    (c : ℤ) (p : ℕ) → negsuc 1 ≤ℤ c → c ≤ℤ pos (limit - 1) → p ≤ limit → after c p ≡ expected c p
unfolding read_range range wrapped after ◌+ℤ◌ to_word
after-expected c p h k q = ground arith

-- From any position in the ring or in front of its first word, a call leaves a reader at the word
-- before the last, which starts again, at the word before the writer's, or in front of the first word
-- if the writer is there; and any other reader at the word before the writer's if the writer is more
-- than two words ahead, at the last word of the ring if the writer is more than one word behind and a
-- word is left to read, and where it was otherwise. The words of the ring and the first call make no
-- difference.
pub current-read_buffer :
    (b : Board) (o : Bool) (ring : ℕ → ℕ) (now p : ℕ) (a : Acq)
    → negsuc 1 ≤ℤ a.current
    → a.current ≤ℤ pos (limit - 1)
    → p ≤ limit
    → (read_buffer b o ring now p a).current ≡ expected a.current p
current-read_buffer b o ring now p a h k q =
    after-read_buffer b o ring now p a ∙ after-expected a.current p h k q

-- A call that finds the writer ahead, with at least one word to read and not at the last word of
-- the ring, reads up to the word before the writer's, and the next call that finds the writer
-- further on begins one word after the writer's former word: that word is read by neither.
read_range-skips :
    (c : ℤ) (p p' : ℕ)
    → negsuc 1 ≤ℤ c
    → c +ℤ pos 2 ≤ℤ pos (p - 1)
    → 0 < p
    → p < p'
    → p' ≤ limit
    → p ≢ limit - 1
    → ((read_range c p).1 ≡ p) × (read_range (after c p) p' ≡ (p + 1, p'))
unfolding read_range after ◌+ℤ◌ to_word
read_range-skips c p p' h k z l m n = ground arith

-- When the writer has gone round the end of the ring and stands more than one word behind the
-- reader, and the reader is not at the last two words, a call reads up to the end of the ring and
-- stops at its last word.
pub after-round :
    (k p : ℕ)
    → p + 1 < k
    → k < limit - 2
    → (read_range (pos k) p ≡ (k + 2, limit)) × (after (pos k) p ≡ pos (limit - 1))
unfolding read_range after ◌+ℤ◌ to_word
after-round k p h l = ground arith

-- At the last word the reader is stuck: wherever the writer stands, nothing is read.
pub after-last :
    (p : ℕ)
    → p ≤ limit
    → ((read_range (pos (limit - 1)) p).1 ≤ (read_range (pos (limit - 1)) p).0)
      × (after (pos (limit - 1)) p ≡ pos (limit - 1))
unfolding read_range after ◌+ℤ◌ to_word
after-last p h = ground arith

stuck_call :
    (b : Board) (o : Bool) (ring : ℕ → ℕ) (now p : ℕ) (a : Acq)
    → a.f_first_time ≡ false
    → a.current ≡ pos (limit - 1)
    → p ≤ limit
    → read_buffer b o ring now p a ≡ a
unfolding read_buffer read_words wrapped
stuck_call b o ring now p a f h l =
    let w = read_range (pos (limit - 1)) p in
    let none_read : w.1 - w.0 ≡ 0 = omega (arith, (after-last p l).0) in rw f (rw h (rw none_read))

-- The calls of the reading loop of `main`, each with the ring and the writer's word at that time.
unfoldable pub read_calls : Board → Bool → ℕ → List ((ℕ → ℕ) × ℕ) → Acq → Acq
read_calls b o now [] a = a
read_calls b o now ((ring, p) ∷ calls) a = read_calls b o now calls (read_buffer b o ring now p a)

abbrev pub InRing : List ((ℕ → ℕ) × ℕ) → Type 0
InRing [] = Unit
InRing ((_, p) ∷ calls) = (p ≤ limit) × InRing calls

-- Behind the first call, a reader that has come to the last word of the ring never reads again: no
-- later sequence of calls, whatever the writer in the ring does, decodes a word, prints a line or
-- moves `current`.
pub read_calls-stuck :
    (b : Board) (o : Bool) (now : ℕ) (calls : List ((ℕ → ℕ) × ℕ)) (a : Acq)
    → a.f_first_time ≡ false
    → a.current ≡ pos (limit - 1)
    → InRing calls
    → read_calls b o now calls a ≡ a
unfolding read_calls
read_calls-stuck b o now [] a f h l = refl
read_calls-stuck b o now ((ring, p) ∷ calls) a f h l =
    rw (stuck_call b o ring now p a f h l.0) (read_calls-stuck b o now calls a f h l.1)
