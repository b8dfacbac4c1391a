-- ===== src/TinyGps/Nul.antt =====
-- The parsers of a term stop at the NUL byte that ends it, whatever `_term` holds behind it.
use rp_ecosystem.Base.{
  ℕ, ◌+◌, ◌*◌, ◌/◌, ◌-◌, ◌%◌, ◌^◌, ◌≢◌, ◌≡◌, refl, ap, arith, if◌then◌else◌, [], ◌∷◌, ◌++◌, Option,
  none, some, Bytes, drop, ◌==◌, Bool-cases, inl, inr,
}
use rp_ecosystem.Base.Libc.{atoi, strtol, magnitude, skip_space, digits_value, digit}
use rp_ecosystem.Base.Numerals.{no_prefix}
use rp_ecosystem.TinyGps.Number.{
  peek, gpsisdigit, gpsatol_from, gpsatol, skip_digits, hundredths, gps_parse_decimal, minutes_from,
  gps_parse_degrees, gpsstrcmp, neg32,
}

-- Bytes that are not NUL.
abbrev pub IsText : Bytes → Type 0
IsText [] = Unit
IsText (c ∷ s) = (c ≢ 0) × IsText s

same_elim :
    {f g : ℕ → ℕ} (o : Option ℕ) (d : ℕ)
    → ((v : ℕ) → f v ≡ g v)
    → elim o [ none ↦ d | some v ↦ f v ] ≡ elim o [ none ↦ d | some v ↦ g v ]
same_elim none d h = refl
same_elim (some v) d h = h v

module _ (junk : Bytes) where
  gpsatol_from_nul : (ret : ℕ) (s : Bytes) → gpsatol_from ret (s ++ 0 ∷ junk) ≡ gpsatol_from ret s
  unfolding gpsatol_from
  gpsatol_from_nul ret [] = refl
  gpsatol_from_nul ret (c ∷ s) = rw (gpsatol_from_nul ((10 * ret + c - b'0') % 2 ^ 32) s) refl

  pub gpsatol_nul : (s : Bytes) → gpsatol (s ++ 0 ∷ junk) ≡ gpsatol s
  unfolding gpsatol
  gpsatol_nul s = gpsatol_from_nul 0 s

  skip_digits_nul : (s : Bytes) → skip_digits (s ++ 0 ∷ junk) ≡ skip_digits s ++ 0 ∷ junk
  unfolding skip_digits
  skip_digits_nul [] = refl
  skip_digits_nul (c ∷ s) = ground (arith, skip_digits_nul s)

  hundredths_nul : (s : Bytes) → hundredths (s ++ 0 ∷ junk) ≡ hundredths s
  unfolding hundredths gpsisdigit
  hundredths_nul [] = refl
  hundredths_nul (a ∷ []) = ground arith
  hundredths_nul (a ∷ b ∷ []) = refl
  hundredths_nul (a ∷ b ∷ c ∷ s) = refl

  minutes_from_nul :
      (mult acc : ℕ) (s : Bytes) → minutes_from mult acc (s ++ 0 ∷ junk) ≡ minutes_from mult acc s
  unfolding minutes_from
  minutes_from_nul mult acc [] = refl
  minutes_from_nul mult acc (c ∷ s) =
      rw (minutes_from_nul (mult / 10) ((acc + mult * (c - b'0')) % 2 ^ 32) s) refl

  pub peek_nul : (s : Bytes) → peek (s ++ 0 ∷ junk) ≡ peek s
  peek_nul [] = refl
  peek_nul (c ∷ s) = refl

  amount_nul :
      (p : Bytes)
      → (100 * gpsatol (p ++ 0 ∷ junk) + hundredths (skip_digits (p ++ 0 ∷ junk))) % 2 ^ 32
        ≡ (100 * gpsatol p + hundredths (skip_digits p)) % 2 ^ 32
  amount_nul p = rw (gpsatol_nul p, skip_digits_nul p, hundredths_nul (skip_digits p)) refl

  pub gps_parse_decimal_nul : (s : Bytes) → gps_parse_decimal (s ++ 0 ∷ junk) ≡ gps_parse_decimal s
  unfolding gps_parse_decimal
  gps_parse_decimal_nul [] = refl
  gps_parse_decimal_nul (c ∷ s) = elim (Bool-cases (c == b'-')) [
    | inl minus ↦ rw minus (ap neg32 (amount_nul s))
    | inr plain ↦ rw plain (amount_nul (c ∷ s))
  ]

  minutes_nul :
      (acc : ℕ) (p : Bytes)
      → (if peek (p ++ 0 ∷ junk) == b'.'
          then minutes_from 1000 acc (drop 1 (p ++ 0 ∷ junk))
          else acc)
        ≡ (if peek p == b'.' then minutes_from 1000 acc (drop 1 p) else acc)
  minutes_nul acc [] = refl
  minutes_nul acc (c ∷ p) = rw (minutes_from_nul 1000 acc p) refl

  pub gps_parse_degrees_nul : (s : Bytes) → gps_parse_degrees (s ++ 0 ∷ junk) ≡ gps_parse_degrees s
  unfolding gps_parse_degrees
  gps_parse_degrees_nul s =
      rw (gpsatol_nul s, skip_digits_nul s, minutes_nul (gpsatol s % 100 * 10000) (skip_digits s))
        refl

  pub gpsstrcmp_nul : (s t : Bytes) → gpsstrcmp (s ++ 0 ∷ junk) t ≡ gpsstrcmp s t
  unfolding gpsstrcmp
  gpsstrcmp_nul [] t = refl
  gpsstrcmp_nul (c ∷ s) t = rw (gpsstrcmp_nul s (drop 1 t)) refl

  skip_space_nul : (s : Bytes) → skip_space (s ++ 0 ∷ junk) ≡ skip_space s ++ 0 ∷ junk
  unfolding skip_space
  skip_space_nul [] = refl
  skip_space_nul (c ∷ s) = ground (arith, skip_space_nul s)

  digits_value_nul :
      (acc : ℕ) (s : Bytes) → digits_value 10 acc (s ++ 0 ∷ junk) ≡ digits_value 10 acc s
  unfolding digits_value
  digits_value_nul acc [] = refl
  digits_value_nul acc (c ∷ s) = same_elim (digit 10 c) acc (λ v. digits_value_nul (acc * 10 + v) s)

  magnitude_nul : (s : Bytes) → magnitude 10 (s ++ 0 ∷ junk) ≡ magnitude 10 s
  unfolding magnitude digits_value digit
  magnitude_nul [] = rw (no_prefix (0 ∷ junk)) refl
  magnitude_nul (c ∷ s) =
      rw
        (
          no_prefix (s ++ 0 ∷ junk),
          no_prefix (c ∷ (s ++ 0 ∷ junk)),
          no_prefix s,
          no_prefix (c ∷ s),
          digits_value_nul 0 s,
          digits_value_nul 0 (c ∷ s),
        )
        refl

  pub atoi_nul : (s : Bytes) → atoi (s ++ 0 ∷ junk) ≡ atoi s
  unfolding atoi strtol
  atoi_nul s = rw (skip_space_nul s, magnitude_nul (skip_space s)) refl
