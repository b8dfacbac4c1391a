-- ===== src/TinyGps/Digits.antt =====
-- What the number parsers of tinygps.c read, against the numbers that the text spells.
use rp_ecosystem.Base.{
  ℕ, ◌+◌, ◌*◌, ◌/◌, ◌-◌, ◌%◌, ◌^◌, ◌≤◌, ◌<◌, Bool, true, false, ◌≡◌, refl, arith, if◌then◌else◌,
  List, [], ◌∷◌, Bytes,
}
use rp_ecosystem.TinyGps.Number.{
  peek, gpsisdigit, gpsatol_from, gpsatol, skip_digits, hundredths, gps_parse_decimal, minutes_from,
  gps_parse_degrees,
}
use rp_ecosystem.Base.Libc.{hex_digit}
use rp_ecosystem.TinyGps.Encode.{checksum}

-- The characters of decimal digits, before some rest.
abbrev pub text : List ℕ → Bytes → Bytes
text [] rest = rest
text (d ∷ ds) rest = (b'0' + d) ∷ text ds rest

abbrev pub IsDigits : List ℕ → Type 0
IsDigits [] = Unit
IsDigits (d ∷ ds) = (d < 10) × IsDigits ds

-- The number that digits spell, after those of `acc`.
abbrev pub value : ℕ → List ℕ → ℕ
value acc [] = acc
value acc (d ∷ ds) = value (10 * acc + d) ds

-- The rest of a numeral does not go on with a digit.
abbrev pub Ends : Bytes → Type 0
Ends rest = gpsisdigit (peek rest) ≡ false

gpsisdigit-add : (d : ℕ) → d < 10 → gpsisdigit (b'0' + d) ≡ true
unfolding gpsisdigit
gpsisdigit-add d h = ground arith

gpsatol_from-rest : (ret : ℕ) (rest : Bytes) → Ends rest → gpsatol_from ret rest ≡ ret
unfolding gpsatol_from
gpsatol_from-rest ret [] e = refl
gpsatol_from-rest ret (c ∷ s) e = rw e

gpsatol_from-text :
    (ds : List ℕ) (acc : ℕ) (rest : Bytes)
    → IsDigits ds
    → Ends rest
    → gpsatol_from (acc % 2 ^ 32) (text ds rest) ≡ value acc ds % 2 ^ 32
unfolding gpsatol_from
gpsatol_from-text [] acc rest h e = gpsatol_from-rest (acc % 2 ^ 32) rest e
gpsatol_from-text (d ∷ ds) acc rest h e =
    let step : (10 * (acc % 2 ^ 32) + (b'0' + d) - b'0') % 2 ^ 32 ≡ (10 * acc + d) % 2 ^ 32 =
      omega arith in
    rw (gpsisdigit-add d h.0) (rw step (gpsatol_from-text ds (10 * acc + d) rest h.1 e))

-- `gpsatol` reads the number that a run of digits spells, modulo 2 ^ 32.
pub gpsatol-text :
    (ds : List ℕ) (rest : Bytes)
    → IsDigits ds
    → Ends rest
    → gpsatol (text ds rest) ≡ value 0 ds % 2 ^ 32
unfolding gpsatol
gpsatol-text ds rest h e = gpsatol_from-text ds 0 rest h e

skip_digits-rest : (rest : Bytes) → Ends rest → skip_digits rest ≡ rest
unfolding skip_digits
skip_digits-rest [] e = refl
skip_digits-rest (c ∷ s) e = rw e

skip_digits-text :
    (ds : List ℕ) (rest : Bytes) → IsDigits ds → Ends rest → skip_digits (text ds rest) ≡ rest
unfolding skip_digits
skip_digits-text [] rest h e = skip_digits-rest rest e
skip_digits-text (d ∷ ds) rest h e = rw (gpsisdigit-add d h.0) (skip_digits-text ds rest h.1 e)

minutes_from-rest : (mult acc : ℕ) (rest : Bytes) → Ends rest → minutes_from mult acc rest ≡ acc
unfolding minutes_from
minutes_from-rest mult acc [] e = refl
minutes_from-rest mult acc (c ∷ s) e = rw e

-- The four decimals of a minute.
minutes_from-text :
    (acc a b c d : ℕ) (rest : Bytes)
    → acc < 2 ^ 31
    → IsDigits (a ∷ b ∷ c ∷ d ∷ [])
    → Ends rest
    → minutes_from 1000 acc (text (a ∷ b ∷ c ∷ d ∷ []) rest) ≡ acc + 1000 * a + 100 * b + 10 * c + d
unfolding minutes_from
minutes_from-text acc a b c d rest s h e =
    rw
      (
        gpsisdigit-add a h.0,
        gpsisdigit-add b h.1.0,
        gpsisdigit-add c h.1.1.0,
        gpsisdigit-add d h.1.1.1.0,
        minutes_from-rest 0 _ rest e,
      )
      (omega arith)

-- The point behind the digits.
point-Ends : (rest : Bytes) → Ends (b'.' ∷ rest)
unfolding gpsisdigit
point-Ends rest = refl

hundredths-text :
    (d e : ℕ) (rest : Bytes)
    → d < 10
    → e < 10
    → hundredths (b'.' ∷ text (d ∷ e ∷ []) rest) ≡ 10 * d + e
unfolding hundredths
hundredths-text d e rest hd he = rw (gpsisdigit-add d hd, gpsisdigit-add e he) (omega arith)

plain_decimal :
    (ds : List ℕ) (n d e : ℕ) (rest : Bytes)
    → IsDigits (n ∷ ds)
    → d < 10
    → e < 10
    → gps_parse_decimal (text (n ∷ ds) (b'.' ∷ text (d ∷ e ∷ []) rest))
      ≡ (100 * value n ds + 10 * d + e) % 2 ^ 32
unfolding gps_parse_decimal
plain_decimal ds n d e rest h hd he =
    let tail = b'.' ∷ text (d ∷ e ∷ []) rest in
    ground (
      arith,
      h.0,
      gpsatol-text (n ∷ ds) tail h (point-Ends _),
      skip_digits-text (n ∷ ds) tail h (point-Ends _),
      hundredths-text d e rest,
    )

negated_decimal :
    (ds : List ℕ) (n d e : ℕ) (rest : Bytes)
    → IsDigits (n ∷ ds)
    → d < 10
    → e < 10
    → gps_parse_decimal (b'-' ∷ text (n ∷ ds) (b'.' ∷ text (d ∷ e ∷ []) rest))
      ≡ (2 ^ 32 - (100 * value n ds + 10 * d + e) % 2 ^ 32) % 2 ^ 32
unfolding gps_parse_decimal
negated_decimal ds n d e rest h hd he =
    let tail = b'.' ∷ text (d ∷ e ∷ []) rest in
    ground (
      arith,
      gpsatol-text (n ∷ ds) tail h (point-Ends _),
      skip_digits-text (n ∷ ds) tail h (point-Ends _),
      hundredths-text d e rest,
    )

-- A numeral `n.de` is read as its value in hundredths, modulo 2 ^ 32, and behind a minus sign as the
-- two's complement of that.
pub gps_parse_decimal-text :
    (minus : Bool) (ds : List ℕ) (n d e : ℕ) (rest : Bytes)
    → IsDigits (n ∷ ds)
    → d < 10
    → e < 10
    → let numeral = text (n ∷ ds) (b'.' ∷ text (d ∷ e ∷ []) rest) in
      let v = (100 * value n ds + 10 * d + e) % 2 ^ 32 in
      gps_parse_decimal (if minus then b'-' ∷ numeral else numeral)
      ≡ (if minus then (2 ^ 32 - v) % 2 ^ 32 else v)
gps_parse_decimal-text true ds n d e rest h hd he = negated_decimal ds n d e rest h hd he
gps_parse_decimal-text false ds n d e rest h hd he = plain_decimal ds n d e rest h hd he

-- `dddmm.abcd` with `dddmm` below 2 ^ 22 and four decimals is read in hundred thousandths of a
-- degree, rounded down: `angle` is the angle in ten thousandths of a minute, six of which are one
-- unit of the result.
pub gps_parse_degrees-text :
    (ds : List ℕ) (a b c d : ℕ) (rest : Bytes)
    → IsDigits ds
    → IsDigits (a ∷ b ∷ c ∷ d ∷ [])
    → Ends rest
    → value 0 ds < 2 ^ 22
    → let tenk = value 0 ds % 100 * 10000 + 1000 * a + 100 * b + 10 * c + d in
      let angle = value 0 ds / 100 * 600000 + tenk in
      let r = gps_parse_degrees (text ds (b'.' ∷ text (a ∷ b ∷ c ∷ d ∷ []) rest)) in
      (6 * r ≤ angle) × (angle < 6 * r + 6)
unfolding gps_parse_degrees
gps_parse_degrees-text ds a b c d rest h h' e s =
    let tail = b'.' ∷ text (a ∷ b ∷ c ∷ d ∷ []) rest in
    ground (
      arith,
      gpsatol-text ds tail h (point-Ends _),
      skip_digits-text ds tail h (point-Ends _),
      minutes_from-text (value 0 ds % 100 * 10000) a b c d rest,
    )

-- The two characters of a checksum stand for the byte whose hexadecimal digits they are.
pub checksum-hex_digit :
    (u v : Bool) (x : ℕ)
    → x < 2 ^ 8
    → checksum (hex_digit u (x / 16) ∷ hex_digit v (x % 16) ∷ []) ≡ x
unfolding checksum
checksum-hex_digit u v x h = ground arith
