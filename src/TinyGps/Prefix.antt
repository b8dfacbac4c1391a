-- ===== src/TinyGps/Prefix.antt =====
-- Which first terms `gpsstrcmp` takes for the name of a sentence.
use rp_ecosystem.Base.{◌≡◌, ◌↔◌, refl, arith, [], ◌∷◌, Bytes}
use rp_ecosystem.Base.Text.{codes}
use rp_ecosystem.TinyGps.State.{gps_sentence_gprmc}
use rp_ecosystem.TinyGps.Number.{gpsstrcmp}
use rp_ecosystem.TinyGps.Encode.{sentence_type_of}
use rp_ecosystem.TinyGps.Nul.{IsText}

abbrev pub IsPrefix : Bytes → Bytes → Type 0
IsPrefix [] t = Unit
IsPrefix (c ∷ s) [] = ⊥
IsPrefix (c ∷ s) (x ∷ t) = (c ≡ x) × IsPrefix s t

gpsstrcmp-zero : (s t : Bytes) → IsText s → gpsstrcmp s t ≡ 0 → IsPrefix s t
unfolding gpsstrcmp
gpsstrcmp-zero [] t h e = tt
gpsstrcmp-zero (c ∷ s) [] h e = ground (arith, h.0)
gpsstrcmp-zero (c ∷ s) (x ∷ t) h e = ground (arith, h.0, gpsstrcmp-zero s t h.1)

gpsstrcmp-IsPrefix : (s t : Bytes) → IsText s → IsPrefix s t → gpsstrcmp s t ≡ 0
unfolding gpsstrcmp
gpsstrcmp-IsPrefix [] t h p = refl
gpsstrcmp-IsPrefix (c ∷ s) [] h p = elim p [ ]
gpsstrcmp-IsPrefix (c ∷ s) (x ∷ t) h p = ground (arith, h.0, p.0, gpsstrcmp-IsPrefix s t h.1 p.1)

-- A first term is taken for GPRMC exactly if it is a prefix of that name, the empty one among them.
pub sentence_type_of-IsPrefix :
    (s : Bytes) → IsText s → (sentence_type_of s ≡ gps_sentence_gprmc) ↔ IsPrefix s (codes "GPRMC")
unfolding sentence_type_of
sentence_type_of-IsPrefix s h =
    let there = gpsstrcmp-zero s (codes "GPRMC") h in
    let back = gpsstrcmp-IsPrefix s (codes "GPRMC") h in
    (
      λ e. there (ground arith),
      λ p. let z : gpsstrcmp s (codes "GPRMC") ≡ 0 = back p in ground arith,
    )
