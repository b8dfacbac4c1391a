-- ===== src/TinyGps/Body.antt =====
-- The decoder from `$` over the body of a sentence to `*`.
use rp_ecosystem.Base.{
  ℕ, ◌^◌, ◌<◌, Bool, true, false, ◌≡◌, ◌≢◌, refl, ◌∙◌, ap, arith, List, [], ◌∷◌, ◌++◌, bit_xor,
  if◌then◌else◌,
}
use rp_ecosystem.TinyGps.State.{Fix, Gps}
use rp_ecosystem.TinyGps.Encode.{end_term, begin_sentence, add_char, counted, gps_encode}
use rp_ecosystem.TinyGps.Query.{feed}
use rp_ecosystem.TinyGps.Valid.{
  IsValid, gps_encode-IsValid, gps_term_complete-keeps, closing, gps_term_complete-true,
}
use rp_ecosystem.TinyGps.Accept.{gps_encode-fix}

-- A character that may stand between `$` and `*`: a byte that neither begins nor ends a sentence.
abbrev pub IsBodyChar : ℕ → Type 0
IsBodyChar c = (c < 2 ^ 8) × (c ≢ b'$') × (c ≢ b'*') × (c ≢ b'\r') × (c ≢ b'\n')

abbrev pub IsBody : List (ℕ × ℕ) → Type 0
IsBody [] = Unit
IsBody ((c, _) ∷ s) = IsBodyChar c × IsBody s

-- The exclusive or of the bytes.
abbrev pub xor_from : ℕ → List (ℕ × ℕ) → ℕ
xor_from p [] = p
xor_from p ((c, _) ∷ s) = xor_from (bit_xor p c) s

pub feed-append : (s t : List (ℕ × ℕ)) (r : Gps × Bool) → feed (s ++ t) r ≡ feed t (feed s r)
unfolding feed
feed-append [] t r = refl
feed-append ((c, k) ∷ s) t (g, n) = feed-append s t _

-- The state inside a body: valid, outside a checksum term, with the parity and the fix given.
pub record Inside (parity : ℕ) (fix : Fix) (g : Gps) : Type 0 where
  pub valid : IsValid g
  pub plain : g.is_checksum_term ≡ false
  pub parity_is : g.parity ≡ parity
  pub fix_is : g.fix ≡ fix

pub step-parity :
    (clock c : ℕ) (g : Gps)
    → IsBodyChar c
    → IsValid g
    → g.is_checksum_term ≡ false
    → ((gps_encode clock c g).0.parity ≡ bit_xor g.parity c)
      × ((gps_encode clock c g).0.is_checksum_term ≡ false)
      × ((gps_encode clock c g).1 ≡ false)
unfolding gps_encode end_term add_char
step-parity clock c g h v e = ground (
  arith,
  gps_term_complete-keeps clock (closing c (counted g)),
  gps_term_complete-true clock (closing c (counted g)),
)

pub step-Inside :
    {p : ℕ} {f : Fix} (clock c : ℕ) (g : Gps)
    → IsBodyChar c
    → Inside p f g
    → Inside (bit_xor p c) f (gps_encode clock c g).0 × ((gps_encode clock c g).1 ≡ false)
step-Inside clock c g h i =
    let (a, b, d) = step-parity clock c g h i.valid i.plain in
    (
      record {
        valid = gps_encode-IsValid clock c g h.0 i.valid;
        plain = b;
        parity_is = a ∙ ap (λ t. bit_xor t c) i.parity_is;
        fix_is = gps_encode-fix clock c g ∙ rw d i.fix_is;
      },
      d,
    )

pub feed-Inside :
    (s : List (ℕ × ℕ)) {p : ℕ} {f : Fix} (g : Gps) (n : Bool)
    → IsBody s
    → Inside p f g
    → Inside (xor_from p s) f (feed s (g, n)).0 × ((feed s (g, n)).1 ≡ n)
unfolding feed
feed-Inside [] g n h i = (i, refl)
feed-Inside ((c, k) ∷ s) g n h i =
    let (i', d) = step-Inside k c g h.0 i in
    let n' : Bool = if (gps_encode k c g).1 then true else n in
    let (i'', e) = feed-Inside s (gps_encode k c g).0 n' h.1 i' in (i'', e ∙ rw d)

-- The state after `$`, the body and `*`.
abbrev pub opened : Gps → ℕ → List (ℕ × ℕ) → ℕ → Gps
opened g k body l = (feed (((b'$', k) ∷ body) ++ (b'*', l) ∷ []) (g, false)).0

pub begin-Inside :
    (k : ℕ) (g : Gps)
    → IsValid g
    → Inside 0 g.fix (gps_encode k b'$' g).0 × ((gps_encode k b'$' g).1 ≡ false)
unfolding gps_encode begin_sentence
begin-Inside k g v = (
  record {
    valid = gps_encode-IsValid k b'$' g (omega arith) v;
    plain = refl;
    parity_is = refl;
    fix_is = refl;
  },
  refl,
)

-- What `*` leaves: a checksum term with nothing in it.
pub record Closed (parity : ℕ) (fix : Fix) (g : Gps) : Type 0 where
  pub valid : IsValid g
  pub checking : g.is_checksum_term ≡ true
  pub empty : g.term_offset ≡ 0
  pub parity_is : g.parity ≡ parity
  pub fix_is : g.fix ≡ fix

pub star-step :
    (clock : ℕ) (g : Gps)
    → IsValid g
    → g.is_checksum_term ≡ false
    → let r = gps_encode clock b'*' g in
      (r.0.parity ≡ g.parity)
      × (r.0.is_checksum_term ≡ true)
      × (r.0.term_offset ≡ 0)
      × (r.1 ≡ false)
unfolding gps_encode end_term
star-step clock g v e = ground (
  arith,
  gps_term_complete-keeps clock (closing b'*' (counted g)),
  gps_term_complete-true clock (closing b'*' (counted g)),
)

pub star-Closed :
    {p : ℕ} {f : Fix} (clock : ℕ) (g : Gps)
    → Inside p f g
    → Closed p f (gps_encode clock b'*' g).0 × ((gps_encode clock b'*' g).1 ≡ false)
star-Closed clock g i =
    let (a, b, o, d) = star-step clock g i.valid i.plain in
    (
      record {
        valid = gps_encode-IsValid clock b'*' g (omega arith) i.valid;
        checking = b;
        empty = o;
        parity_is = a ∙ i.parity_is;
        fix_is = gps_encode-fix clock b'*' g ∙ rw d i.fix_is;
      },
      d,
    )
