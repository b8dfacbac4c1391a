-- ===== src/TinyGps/Sentence.antt =====
-- The decoder over a whole sentence, `$` body `*` two digits, end of line.
use rp_ecosystem.Base.{
  ℕ, ◌+◌, ◌-◌, ◌<◌, Bool, true, false, ◌≡◌, ◌≢◌, refl, sym, subst, ◌∙◌, ap, arith, List, [], ◌∷◌,
  ◌++◌, length, set, ◌==◌, ◌&&◌, if◌then◌else◌, Bytes, ◌⊎◌,
}
use rp_ecosystem.TinyGps.State.{Fix, Gps, term_size}
use rp_ecosystem.TinyGps.Encode.{commit, checksum, add_char, counted, gps_encode}
use rp_ecosystem.TinyGps.Query.{feed}
use rp_ecosystem.TinyGps.Valid.{IsValid}
use rp_ecosystem.TinyGps.Accept.{gps_encode-true, gps_encode-fix}
use rp_ecosystem.TinyGps.Body.{
  IsBodyChar, IsBody, xor_from, feed-append, feed-Inside, opened, begin-Inside, Closed, star-Closed,
}

-- An ordinary character of the checksum.
digit-step :
    (clock c o : ℕ) (g : Gps)
    → IsBodyChar c × (c ≢ b',')
    → g.is_checksum_term ≡ true
    → g.term_offset ≡ o
    → o < term_size - 1
    → gps_encode clock c g
      ≡ (record (counted g) { term = set g.term o c; term_offset = o + 1 }, false)
unfolding gps_encode add_char
digit-step clock c o g h e p q = ground arith

-- The decoder before the end of the line, after two characters of checksum.
abbrev at_end : ℕ → ℕ → Gps → Gps
at_end h1 h2 m = record (counted (counted m)) { term = set (set m.term 0 h1) 1 h2; term_offset = 2 }

checksum-set :
    (h1 h2 : ℕ) (t : Bytes)
    → length t ≡ term_size
    → checksum (set (set (set t 0 h1) 1 h2) 2 0) ≡ checksum (h1 ∷ h2 ∷ [])
unfolding checksum
checksum-set h1 h2 [] h = absurd (omega arith)
checksum-set h1 h2 (a ∷ []) h = absurd (omega arith)
checksum-set h1 h2 (a ∷ b ∷ t) h = refl

two_digits :
    {p : ℕ} {f : Fix} (k1 k2 h1 h2 : ℕ) (m : Gps)
    → IsBodyChar h1 × (h1 ≢ b',')
    → IsBodyChar h2 × (h2 ≢ b',')
    → Closed p f m
    → feed ((h1, k1) ∷ (h2, k2) ∷ []) (m, false) ≡ (at_end h1 h2 m, false)
unfolding feed
two_digits k1 k2 h1 h2 m i j c =
    let mid = record (counted m) { term = set m.term 0 h1; term_offset = 1 } in
    let one = digit-step k1 h1 0 m i c.checking c.empty (omega arith) in
    let two = digit-step k2 h2 1 mid j c.checking refl (omega arith) in rw (one, two)

last_step :
    (k e h1 h2 p : ℕ) (f : Fix) (m : Gps)
    → (e ≡ b'\r') ⊎ (e ≡ b'\n')
    → Closed p f m
    → let r = gps_encode k e (at_end h1 h2 m) in
      let accepted = checksum (h1 ∷ h2 ∷ []) == p && m.is_gps_data_good in
      (r.1 ≡ accepted) × (r.0.fix ≡ (if accepted then commit m else f))
unfolding commit
last_step k e h1 h2 p f m i c = ground (
  arith,
  gps_encode-true k e (at_end h1 h2 m),
  gps_encode-fix k e (at_end h1 h2 m),
  checksum-set h1 h2 m.term,
)

if_true-false : (b : Bool) → (if b then true else false) ≡ b
if_true-false b = ground arith

pub opened-Closed :
    (g : Gps) (k : ℕ) (body : List (ℕ × ℕ)) (l : ℕ)
    → IsValid g
    → IsBody body
    → Closed (xor_from 0 body) g.fix (opened g k body l)
      × (feed (((b'$', k) ∷ body) ++ (b'*', l) ∷ []) (g, false) ≡ (opened g k body l, false))
unfolding feed
opened-Closed g k body l v b =
    let (i, d) = begin-Inside k g v in
    let g' = (gps_encode k b'$' g).0 in
    let (i', d') = feed-Inside body g' false b i in
    let inside = (feed body (g', false)).0 in
    let (c, d'') = star-Closed l inside i' in
    let start : feed ((b'$', k) ∷ body) (g, false) ≡ feed body (g', false) =
      ap (λ t. feed body (g', if t then true else false)) d in
    let all : feed (((b'$', k) ∷ body) ++ (b'*', l) ∷ []) (g, false)
        ≡ ((gps_encode l b'*' inside).0, false) =
      feed-append ((b'$', k) ∷ body) ((b'*', l) ∷ []) (g, false)
      ∙ ap (feed ((b'*', l) ∷ [])) start
      ∙ (λ j. ((gps_encode l b'*' inside).0, if d'' j then true else d' j)) in
    let here : opened g k body l ≡ (gps_encode l b'*' inside).0 = ap (λ r. r.0) all in
    (subst (Closed (xor_from 0 body) g.fix) (sym here) c, all ∙ ap (λ t. (t, false)) (sym here))

-- A whole line: `$`, a body, `*`, two characters and a terminator, each with its reading of the
-- clock.
abbrev pub line : ℕ → List (ℕ × ℕ) → ℕ → ℕ × ℕ → ℕ × ℕ → ℕ × ℕ → List (ℕ × ℕ)
line k body l h1 h2 e = (((b'$', k) ∷ body) ++ (b'*', l) ∷ []) ++ (h1 ∷ h2 ∷ e ∷ [])

-- From any valid state, a line `$` body `*` two characters and a carriage return or line feed,
-- whose body holds bytes other than `$`, `*` and ends of line and whose two characters are such
-- bytes and no commas, is reported as a new valid sentence exactly if the two characters spell the
-- exclusive or of the body and its fields declared the data good; the fix is then that of the
-- sentence, and otherwise the line leaves the fix as it was.
pub feed-line :
    (g : Gps) (k : ℕ) (body : List (ℕ × ℕ)) (l h1 k1 h2 k2 e k3 : ℕ)
    → IsValid g
    → IsBody body
    → IsBodyChar h1 × (h1 ≢ b',')
    → IsBodyChar h2 × (h2 ≢ b',')
    → (e ≡ b'\r') ⊎ (e ≡ b'\n')
    → let mid = opened g k body l in
      let accepted = checksum (h1 ∷ h2 ∷ []) == xor_from 0 body && mid.is_gps_data_good in
      let r = feed (line k body l (h1, k1) (h2, k2) (e, k3)) (g, false) in
      (r.1 ≡ accepted) × (r.0.fix ≡ (if accepted then commit mid else g.fix))
unfolding feed
feed-line g k body l h1 k1 h2 k2 e k3 v b i j t =
    let start = ((b'$', k) ∷ body) ++ (b'*', l) ∷ [] in
    let mid = opened g k body l in
    let (c, whole) = opened-Closed g k body l v b in
    let digits = (h1, k1) ∷ (h2, k2) ∷ [] in
    let all : feed (line k body l (h1, k1) (h2, k2) (e, k3)) (g, false)
        ≡ feed ((e, k3) ∷ []) (at_end h1 h2 mid, false) =
      feed-append start (digits ++ (e, k3) ∷ []) (g, false)
      ∙ ap (feed (digits ++ (e, k3) ∷ [])) whole
      ∙ feed-append digits ((e, k3) ∷ []) (mid, false)
      ∙ ap (feed ((e, k3) ∷ [])) (two_digits k1 k2 h1 h2 mid i j c) in
    let (x, y) = last_step k3 e h1 h2 (xor_from 0 body) g.fix mid t c in
    rw all (if_true-false _ ∙ x, y)
