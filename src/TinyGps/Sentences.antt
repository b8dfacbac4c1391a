-- ===== src/TinyGps/Sentences.antt =====
-- A sentence through the decoder, against its terms.
use rp_ecosystem.Base.{
  ℕ, ◌≡◌, ◌≢◌, refl, sym, ap, false, ◌∙◌, arith, List, [], ◌∷◌, ◌++◌, ◌==◌, ◌&&◌, if◌then◌else◌,
  Bool-cases, ◌⊎◌, inl, inr,
}
use rp_ecosystem.TinyGps.State.{Gps, gps_sentence_gpgga, gps_sentence_gprmc}
use rp_ecosystem.TinyGps.Encode.{commit, checksum}
use rp_ecosystem.TinyGps.Query.{feed}
use rp_ecosystem.TinyGps.Valid.{IsValid}
use rp_ecosystem.TinyGps.Body.{IsBodyChar, IsBody, xor_from, opened}
use rp_ecosystem.TinyGps.Sentence.{line, feed-line, opened-Closed}
use rp_ecosystem.TinyGps.Terms.{
  Draft, draft_of, blank, publish, Term, accept_terms, joined, IsTerm, AreTerms,
}
use rp_ecosystem.TinyGps.Refine.{opened-terms}

commit-publish : (g : Gps) → commit g ≡ publish (draft_of g) g.fix
unfolding commit
commit-publish g = elim (Bool-cases (g.sentence_type == gps_sentence_gprmc)) [
  | inl rmc ↦ rw rmc refl
  | inr other ↦ elim (Bool-cases (g.sentence_type == gps_sentence_gpgga)) [
    | inl gga ↦ rw (other, gga) refl
    | inr none ↦ rw (other, none) refl
  ]
]

IsBody-append : (s t : List (ℕ × ℕ)) → IsBody s → IsBody t → IsBody (s ++ t)
IsBody-append [] t h b = b
IsBody-append ((c, k) ∷ s) t h b = (h.0, IsBody-append s t h.1 b)

IsBody-term : (t : Term) → IsTerm t → IsBody t
IsBody-term [] h = tt
IsBody-term ((c, k) ∷ t) h =
    let (byte, nul, dollar, star, cr, lf, comma) = h.0 in
    ((byte, dollar, star, cr, lf), IsBody-term t h.1)

IsBody-joined : (ts : List (Term × ℕ)) → AreTerms ts → IsBody (joined ts)
IsBody-joined [] h = tt
IsBody-joined ((t, k) ∷ ts) h =
    IsBody-append t ((b',', k) ∷ joined ts) (IsBody-term t h.0) (omega arith, IsBody-joined ts h.1)

-- The whole decoder against the meaning of a sentence. From any valid state, a line of `$`, terms
-- that commas separate, `*`, two characters and a carriage return or line feed, at any readings of
-- the clock, is reported as valid exactly if the two characters spell the exclusive or of the bytes
-- between `$` and `*` and the terms declare the data good; the fix is then what the terms, the first
-- 14 bytes of each, publish, and otherwise it is left as it was. The terms hold bytes other than NUL,
-- `$`, `*`, `,` and ends of line, and the two characters likewise, but NUL is allowed there.
pub feed-accept_terms :
    (g : Gps) (k : ℕ) (ts : List (Term × ℕ)) (last : Term) (l h1 k1 h2 k2 e k3 : ℕ)
    → IsValid g
    → AreTerms ts
    → IsTerm last
    → IsBodyChar h1 × (h1 ≢ b',')
    → IsBodyChar h2 × (h2 ≢ b',')
    → (e ≡ b'\r') ⊎ (e ≡ b'\n')
    → let body = joined ts ++ last in
      let d = accept_terms (ts ++ (last, l) ∷ []) (blank g.new) in
      let accepted = checksum (h1 ∷ h2 ∷ []) == xor_from 0 body && d.good in
      let r = feed (line k body l (h1, k1) (h2, k2) (e, k3)) (g, false) in
      (r.1 ≡ accepted) × (r.0.fix ≡ (if accepted then publish d g.fix else g.fix))
feed-accept_terms g k ts last l h1 k1 h2 k2 e k3 v a b i j t =
    let body = joined ts ++ last in
    let is_body = IsBody-append (joined ts) last (IsBody-joined ts a) (IsBody-term last b) in
    let mid = opened g k body l in
    let d = accept_terms (ts ++ (last, l) ∷ []) (blank g.new) in
    let said : draft_of mid ≡ d = opened-terms g k ts last l v a b in
    let good : mid.is_gps_data_good ≡ d.good = ap (λ (q : Draft). q.good) said in
    let fixed : mid.fix ≡ g.fix = (opened-Closed g k body l v is_body).0.fix_is in
    let out : commit mid ≡ publish d g.fix =
      commit-publish mid ∙ ap (λ q. publish q mid.fix) said ∙ ap (publish d) fixed in
    let (x, y) = feed-line g k body l h1 k1 h2 k2 e k3 v is_body i j t in
    rw (sym good, sym out) (x, y)
