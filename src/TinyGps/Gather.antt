-- ===== src/TinyGps/Gather.antt =====
-- The characters of a term gather in `_term`, up to 14 of them.
use rp_ecosystem.Base.{
  ℕ, zero, suc, ◌+◌, ◌-◌, ◌≤◌, Bool, true, false, ◌≡◌, ◌≢◌, refl, sym, ap, ◌∙◌, arith, [], ◌∷◌,
  ◌++◌, length, length-append, take, set, ltb, if◌then◌else◌, Bytes, Bool-cases, inl, inr,
}
use rp_ecosystem.TinyGps.State.{Gps, term_size}
use rp_ecosystem.TinyGps.Encode.{add_char, counted, gps_encode}
use rp_ecosystem.TinyGps.Query.{feed}
use rp_ecosystem.TinyGps.Nul.{IsText}
use rp_ecosystem.TinyGps.Terms.{draft_of, Term, bytes_of, IsTermChar, IsTerm}

-- Inside a term of which s has been kept.
pub record InTerm (s : Bytes) (g : Gps) : Type 0 where
  pub plain : g.is_checksum_term ≡ false
  pub offset : g.term_offset ≡ length s
  pub junk : Bytes
  pub term_is : g.term ≡ s ++ junk
  pub size : length s + length junk ≡ term_size
  pub kept : length s ≤ 14

pub set-append : (s j : Bytes) (x c : ℕ) → set (s ++ x ∷ j) (length s) c ≡ s ++ c ∷ j
set-append [] j x c = refl
set-append (y ∷ s) j x c = ap (◌∷◌ y) (set-append s j x c)

append_assoc : (s : Bytes) (c : ℕ) (j : Bytes) → (s ++ c ∷ []) ++ j ≡ s ++ c ∷ j
append_assoc [] c j = refl
append_assoc (y ∷ s) c j = ap (◌∷◌ y) (append_assoc s c j)

abbrev pub put : Bytes → ℕ → Bytes
put s c = if ltb (length s) 14 then s ++ c ∷ [] else s

char_step :
    (clock c : ℕ) (g : Gps) → IsTermChar c → gps_encode clock c g ≡ (add_char c (counted g), false)
unfolding gps_encode
char_step clock c g h = ground arith

char-draft : (c : ℕ) (g : Gps) → draft_of (add_char c (counted g)) ≡ draft_of g
unfolding add_char
char-draft c g = refl

char-InTerm : (c : ℕ) (g : Gps) (s : Bytes) → InTerm s g → InTerm (put s c) (add_char c (counted g))
unfolding add_char
char-InTerm c g s i = go i.junk i.term_is i.size
  where
    go :
        (junk : Bytes)
        → g.term ≡ s ++ junk
        → length s + length junk ≡ term_size
        → InTerm (put s c) (add_char c (counted g))
    go [] t z = absurd (omega (arith, i.kept))
    go (x ∷ j) t z = elim (Bool-cases (ltb (length s) 14)) [
      | inl room ↦
          let here : ltb g.term_offset 14 ≡ true = rw i.offset room in
          let set_is : set g.term g.term_offset c ≡ s ++ c ∷ j =
            rw (i.offset, t) (set-append s j x c) in
          let longer : length (s ++ c ∷ []) ≡ length s + 1 = length-append s (c ∷ []) in
          record {
            plain = i.plain;
            offset = rw (here, room) (omega (arith, i.offset, longer));
            junk = j;
            term_is = rw (here, room) (set_is ∙ sym (append_assoc s c j));
            size = rw room (omega (arith, z, longer));
            kept = rw room (ground (arith, longer));
          }
      | inr full ↦
          let here : ltb g.term_offset 14 ≡ false = rw i.offset full in
          record {
            plain = i.plain;
            offset = rw (here, full) i.offset;
            junk = x ∷ j;
            term_is = rw (here, full) t;
            size = rw full z;
            kept = rw full i.kept;
          }
    ]

-- What is kept of a term.
abbrev pub gather : Bytes → Term → Bytes
gather s [] = s
gather s ((c, _) ∷ t) = gather (put s c) t

pub feed-step :
    (c k : ℕ) (t : Term) (g g' : Gps) (n : Bool)
    → gps_encode k c g ≡ (g', false)
    → feed ((c, k) ∷ t) (g, n) ≡ feed t (g', n)
unfolding feed
feed-step c k t g g' n e = ap (λ r. feed t (r.0, if r.1 then true else n)) e

pub term-InTerm :
    (t : Term) (s : Bytes) (g : Gps) (n : Bool)
    → IsTerm t
    → InTerm s g
    → InTerm (gather s t) (feed t (g, n)).0
      × (draft_of (feed t (g, n)).0 ≡ draft_of g)
      × ((feed t (g, n)).1 ≡ n)
unfolding feed
term-InTerm [] s g n h i = (i, refl, refl)
term-InTerm ((c, k) ∷ t) s g n h i =
    let next = add_char c (counted g) in
    let (a, b, d) = term-InTerm t (put s c) next n h.1 (char-InTerm c g s i) in
    rw (feed-step c k t g next n (char_step k c g h.0)) (a, b ∙ char-draft c g, d)

take_nil : (n : ℕ) → take {A = ℕ} n [] ≡ []
take_nil zero = refl
take_nil (suc n) = refl

append_nil : (s : Bytes) → s ++ [] ≡ s
append_nil [] = refl
append_nil (c ∷ s) = ap (◌∷◌ c) (append_nil s)

pub gather_from :
    (t : Term) (s : Bytes) → length s ≤ 14 → gather s t ≡ s ++ take (14 - length s) (bytes_of t)
gather_from [] s h =
    let none_left : take (14 - length s) [] ≡ [] = take_nil (14 - length s) in
    rw none_left (sym (append_nil s))
gather_from ((c, k) ∷ t) s h = elim (Bool-cases (ltb (length s) 14)) [
  | inl room ↦
      let longer : length (s ++ c ∷ []) ≡ length s + 1 = length-append s (c ∷ []) in
      let left : 14 - length s ≡ suc (14 - length (s ++ c ∷ [])) = ground (arith, longer) in
      let ih = gather_from t (s ++ c ∷ []) (ground (arith, longer)) in
      rw (room, left) (ih ∙ append_assoc s c (take (14 - length (s ++ c ∷ [])) (bytes_of t)))
  | inr full ↦
      let left : 14 - length s ≡ 0 = ground arith in
      let ih : gather s t ≡ s ++ take (14 - length s) (bytes_of t) = gather_from t s h in
      rw (full, left) (rw left at ih)
]

IsText-append : (s : Bytes) (c : ℕ) → IsText s → c ≢ 0 → IsText (s ++ c ∷ [])
IsText-append [] c h n = (n, tt)
IsText-append (x ∷ s) c h n = (h.0, IsText-append s c h.1 n)

pub IsText-gather : (t : Term) (s : Bytes) → IsTerm t → IsText s → IsText (gather s t)
IsText-gather [] s h i = i
IsText-gather ((c, k) ∷ t) s h i =
    IsText-gather t (put s c) h.1 (elim (Bool-cases (ltb (length s) 14)) [
      | inl room ↦ rw room (IsText-append s c i h.0.1)
      | inr full ↦ rw full i
    ])
