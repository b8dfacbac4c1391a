-- ===== src/TinyGps/Meaning.antt =====
-- What `gps_term_complete` does to the draft of the sentence.
use rp_ecosystem.Base.{
  ℕ, Bool, false, ◌≡◌, refl, ap, ◌∙◌, arith, [], ◌∷◌, ◌++◌, ◌==◌, Bytes, Bool-cases, inl, inr,
}
use rp_ecosystem.Base.Text.{codes}
use rp_ecosystem.TinyGps.State.{Fix, Gps, gps_sentence_other}
use rp_ecosystem.TinyGps.Encode.{
  combine, sentence_type_of, store_field, data_good, gps_term_complete,
}
use rp_ecosystem.TinyGps.Nul.{
  IsText, gpsatol_nul, gps_parse_decimal_nul, gps_parse_degrees_nul, gpsstrcmp_nul, atoi_nul,
  peek_nul,
}
use rp_ecosystem.TinyGps.Terms.{draft_of, accept_value, read_term}

store_field_nul :
    (junk : Bytes) (clock code : ℕ) (s : Bytes) (n : Fix)
    → store_field clock code (s ++ 0 ∷ junk) n ≡ store_field clock code s n
unfolding store_field
store_field_nul junk clock code s n =
    rw
      (
        gpsatol_nul junk s,
        gps_parse_decimal_nul junk s,
        gps_parse_degrees_nul junk s,
        atoi_nul junk s,
        peek_nul junk s,
      )
      refl

data_good_nul :
    (junk : Bytes) (code : ℕ) (s : Bytes) (b : Bool)
    → data_good code (s ++ 0 ∷ junk) b ≡ data_good code s b
unfolding data_good
data_good_nul junk code s b = rw (peek_nul junk s) refl

sentence_type_of_nul : (junk s : Bytes) → sentence_type_of (s ++ 0 ∷ junk) ≡ sentence_type_of s
unfolding sentence_type_of
sentence_type_of_nul junk s =
    rw (gpsstrcmp_nul junk s (codes "GPRMC"), gpsstrcmp_nul junk s (codes "GPGGA")) refl

value-draft :
    (clock : ℕ) (g : Gps) (s j : Bytes)
    → g.is_checksum_term ≡ false
    → (g.term_number == 0) ≡ false
    → (g.sentence_type == gps_sentence_other) ≡ false
    → g.term ≡ s ++ 0 ∷ j
    → IsText s
    → draft_of (gps_term_complete clock g).0 ≡ accept_value clock s (draft_of g)
unfolding gps_term_complete
value-draft clock g [] j p later known t h = rw (p, later, known, t) refl
value-draft clock g (c ∷ s) j p later known t h =
    let nz : (c == 0) ≡ false = ground (arith, h.0) in
    let code = combine g.sentence_type g.term_number in
    rw (p, later, known, t, nz)
      (rw
        (
          store_field_nul j clock code (c ∷ s) g.new,
          data_good_nul j code (c ∷ s) g.is_gps_data_good,
        )
        refl)

pub term_complete-draft :
    (clock : ℕ) (g : Gps) (s j : Bytes)
    → g.is_checksum_term ≡ false
    → g.term ≡ s ++ 0 ∷ j
    → IsText s
    → draft_of (gps_term_complete clock g).0 ≡ read_term clock s (draft_of g)
unfolding gps_term_complete
term_complete-draft clock g s j p t h = elim (Bool-cases (g.term_number == 0)) [
  | inl first ↦
      rw (p, first, t)
        (ap (λ k. record (draft_of g) { sentence_type = k }) (sentence_type_of_nul j s))
  | inr later ↦ elim (Bool-cases (g.sentence_type == gps_sentence_other)) [
    | inl other ↦ rw (p, later, other) refl
    | inr known ↦ value-draft clock g s j p later known t h ∙ rw (later, known) refl
  ]
]
