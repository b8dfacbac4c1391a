-- ===== src/TinyGps/Refine.antt =====
-- The decoder, character by character in its array, does what the terms of the sentence mean.
use rp_ecosystem.Base.{
  ℕ, ◌+◌, ◌%◌, ◌^◌, Bool, true, false, ◌≡◌, refl, sym, ap, ◌∙◌, arith, List, [], ◌∷◌, ◌++◌, length,
  length-append, length-set, take, set, ltb, if◌then◌else◌, Bytes,
}
use rp_ecosystem.TinyGps.State.{Gps, term_size}
use rp_ecosystem.TinyGps.Encode.{end_term, begin_sentence, counted, gps_encode}
use rp_ecosystem.TinyGps.Query.{feed}
use rp_ecosystem.TinyGps.Valid.{IsValid, closing, gps_term_complete-keeps}
use rp_ecosystem.TinyGps.Body.{feed-append, opened}
use rp_ecosystem.TinyGps.Nul.{IsText}
use rp_ecosystem.TinyGps.Terms.{
  Draft, draft_of, blank, Term, bytes_of, accept_term, accept_terms, joined, IsTerm, AreTerms,
}
use rp_ecosystem.TinyGps.Meaning.{term_complete-draft}
use rp_ecosystem.TinyGps.Gather.{
  InTerm, set-append, gather, gather_from, term-InTerm, IsText-gather,
}

-- The state that a terminator hands over, its term ended by a NUL byte.
end_term-draft :
    (clock c : ℕ) (g : Gps) (s : Bytes)
    → IsText s
    → InTerm s g
    → draft_of (end_term clock c g).0 ≡ accept_term clock s (draft_of g)
unfolding end_term
end_term-draft clock c g s h i = go i.junk i.term_is i.size
  where
    go :
        (junk : Bytes)
        → g.term ≡ s ++ junk
        → length s + length junk ≡ term_size
        → draft_of (end_term clock c g).0 ≡ accept_term clock s (draft_of g)
    go [] t z = absurd (omega (arith, i.kept))
    go (x ∷ j) t z =
        let room : ltb g.term_offset term_size ≡ true = rw i.offset (ground (arith, i.kept)) in
        let set_is : set g.term g.term_offset 0 ≡ s ++ 0 ∷ j =
          rw (i.offset, t) (set-append s j x 0) in
        let done = term_complete-draft clock (closing c g) s j i.plain set_is h in
        rw room (ap (λ (d : Draft). record d { number = (d.number + 1) % 2 ^ 8 }) done)

comma-InTerm : (clock : ℕ) (g : Gps) (s : Bytes) → InTerm s g → InTerm [] (end_term clock b',' g).0
unfolding end_term
comma-InTerm clock g s i =
    let closed = closing b',' g in
    let all : length g.term ≡ term_size =
      rw i.term_is (omega (arith, length-append s i.junk, i.size)) in
    record {
      plain = refl;
      offset = refl;
      junk = (end_term clock b',' g).0.term;
      term_is = refl;
      size =
          ground (arith, length-set g.term g.term_offset 0, gps_term_complete-keeps clock closed);
      kept = omega arith;
    }

counted-InTerm : (g : Gps) (s : Bytes) → InTerm s g → InTerm s (counted g)
counted-InTerm g s i = record {
  plain = i.plain;
  offset = i.offset;
  junk = i.junk;
  term_is = i.term_is;
  size = i.size;
  kept = i.kept;
}

-- A term and its terminator.
term-draft :
    (t : Term) (k c : ℕ) (g : Gps) (n : Bool)
    → IsTerm t
    → InTerm [] g
    → draft_of (end_term k c (counted (feed t (g, n)).0)).0
      ≡ accept_term k (take 14 (bytes_of t)) (draft_of g)
term-draft t k c g n h i =
    let (a, b, d) = term-InTerm t [] g n h i in
    let kept_is : gather [] t ≡ take 14 (bytes_of t) = gather_from t [] (omega arith) in
    let done =
      end_term-draft k c (counted (feed t (g, n)).0) (gather [] t) (IsText-gather t [] h tt)
        (counted-InTerm (feed t (g, n)).0 (gather [] t) a) in
    done
    ∙ ap (λ s. accept_term k s (draft_of (feed t (g, n)).0)) kept_is
    ∙ ap (accept_term k (take 14 (bytes_of t))) b

-- Terms and their commas.
terms-draft :
    (ts : List (Term × ℕ)) (g : Gps) (n : Bool)
    → AreTerms ts
    → InTerm [] g
    → InTerm [] (feed (joined ts) (g, n)).0
      × (draft_of (feed (joined ts) (g, n)).0 ≡ accept_terms ts (draft_of g))
unfolding feed gps_encode
terms-draft [] g n h i = (i, refl)
terms-draft ((t, k) ∷ ts) g n h i =
    let (a, b, d) = term-InTerm t [] g n h.0 i in
    let g1 = (feed t (g, n)).0 in
    let g2 = (end_term k b',' (counted g1)).0 in
    let m : Bool = if (end_term k b',' (counted g1)).1 then true else (feed t (g, n)).1 in
    let start : InTerm [] g2 =
      comma-InTerm k (counted g1) (gather [] t) (counted-InTerm g1 (gather [] t) a) in
    let (x, y) = terms-draft ts g2 m h.1 start in
    rw (feed-append t ((b',', k) ∷ joined ts) (g, n))
      (x, y ∙ ap (accept_terms ts) (term-draft t k b',' g n h.0 i))

accept_terms-append :
    (ts : List (Term × ℕ)) (t : Term) (k : ℕ) (d : Draft)
    → accept_terms (ts ++ (t, k) ∷ []) d ≡ accept_term k (take 14 (bytes_of t)) (accept_terms ts d)
accept_terms-append [] t k d = refl
accept_terms-append ((t', k') ∷ ts) t k d =
    accept_terms-append ts t k (accept_term k' (take 14 (bytes_of t')) d)

begin-InTerm : (k : ℕ) (g : Gps) → IsValid g → InTerm [] (begin_sentence (counted g))
unfolding begin_sentence
begin-InTerm k g v = record {
  plain = refl;
  offset = refl;
  junk = g.term;
  term_is = refl;
  size = ground (arith, v.term_length);
  kept = omega arith;
}

-- The state after `$`, the terms and `*`.
pub opened-terms :
    (g : Gps) (k : ℕ) (ts : List (Term × ℕ)) (last : Term) (l : ℕ)
    → IsValid g
    → AreTerms ts
    → IsTerm last
    → draft_of (opened g k (joined ts ++ last) l)
      ≡ accept_terms (ts ++ (last, l) ∷ []) (blank g.new)
unfolding feed gps_encode begin_sentence
opened-terms g k ts last l v h h' =
    let g0 = begin_sentence (counted g) in
    let (x, y) = terms-draft ts g0 false h (begin-InTerm k g v) in
    let r = feed (joined ts) (g0, false) in
    let star = (b'*', l) ∷ [] in
    ap (λ (q : Gps × Bool). draft_of q.0)
      (feed-append ((b'$', k) ∷ (joined ts ++ last)) star (g, false))
    ∙ ap (λ (q : Gps × Bool). draft_of (feed star q).0) (feed-append (joined ts) last (g0, false))
    ∙ term-draft last l b'*' r.0 r.1 h' x
    ∙ ap (accept_term l (take 14 (bytes_of last))) y
    ∙ sym (accept_terms-append ts last l (blank g.new))
