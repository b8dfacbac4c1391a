-- ===== src/Nmea/Checksum.antt =====
-- `rp_NmeaGetMessageType` on a whole sentence, `$` body `*` two digits.
use rp_ecosystem.Base.{
  ℕ, ◌+◌, ◌*◌, ◌/◌, ◌%◌, ◌^◌, ◌<◌, ◌≡◌, ◌≢◌, Bool, false, refl, ◌∙◌, arith, bit_xor, [], ◌∷◌, ◌++◌,
  some, ◌==◌, if◌then◌else◌, Bytes,
}
use rp_ecosystem.Base.Int.{to_word, pos}
use rp_ecosystem.Base.Libc.{strchr, hex_digit, HexEnds, strtol-hex_digit, contains, starts_with}
use rp_ecosystem.Base.Text.{codes}
use rp_ecosystem.Nmea.Sentence.{
  sum_to_star, rp_nmea_valid_checksum, rp_nmea_get_message_type, nmea_checksum_err, empty,
  nmea_gpgga, nmea_gprmc, nmea_unknown,
}

-- A body has no `*`.
abbrev pub NoStar : Bytes → Type 0
NoStar [] = Unit
NoStar (c ∷ s) = (c ≢ b'*') × NoStar s

abbrev pub xor_of : ℕ → Bytes → ℕ
xor_of p [] = p
xor_of p (c ∷ s) = xor_of (bit_xor p c) s

-- `$`, a body, `*`, the two digits of x, and a rest.
abbrev pub sentence : Bytes → Bool → Bool → ℕ → Bytes → Bytes
sentence body u v x rest =
    (b'$' ∷ body) ++ b'*' ∷ hex_digit u (x / 16) ∷ hex_digit v (x % 16) ∷ rest

strchr-NoStar :
    (body rest : Bytes) → NoStar body → strchr (body ++ b'*' ∷ rest) b'*' ≡ some (b'*' ∷ rest)
unfolding strchr
strchr-NoStar [] rest h = refl
strchr-NoStar (c ∷ s) rest (n, h) = let ih = strchr-NoStar s rest h in ground (arith, ih)

sum_to_star-NoStar :
    (p : ℕ) (body rest : Bytes)
    → NoStar body
    → sum_to_star p (body ++ b'*' ∷ rest) ≡ some (xor_of p body)
unfolding sum_to_star
sum_to_star-NoStar p [] rest h = refl
sum_to_star-NoStar p (c ∷ s) rest (n, h) =
    let ih = sum_to_star-NoStar (bit_xor p c) s rest h in ground (arith, ih)

to_word-pos : (x : ℕ) → x < 2 ^ 8 → to_word 8 (pos x) ≡ x
unfolding to_word
to_word-pos x h = omega arith

rp_nmea_valid_checksum-sentence :
    (body : Bytes) (u v : Bool) (x : ℕ) (rest : Bytes)
    → NoStar body
    → x < 2 ^ 8
    → HexEnds rest
    → rp_nmea_valid_checksum (sentence body u v x rest)
      ≡ some (if xor_of 0 body == x then empty else nmea_checksum_err)
unfolding rp_nmea_valid_checksum strchr
rp_nmea_valid_checksum-sentence body u v x rest h l e =
    let tail = hex_digit u (x / 16) ∷ hex_digit v (x % 16) ∷ rest in
    let a = strchr-NoStar body tail h in
    let b = sum_to_star-NoStar 0 body tail h in
    let c = strtol-hex_digit u v (x / 16) (x % 16) rest (omega arith) (omega arith) e in
    let d : 16 * (x / 16) + x % 16 ≡ x = omega arith in rw (a, b, c, d, to_word-pos x l) refl

-- Bytes without a `$`.
abbrev pub NoDollar : Bytes → Type 0
NoDollar [] = Unit
NoDollar (c ∷ s) = (c ≢ b'$') × NoDollar s

NoDollar-append : (s t : Bytes) → NoDollar s → NoDollar t → NoDollar (s ++ t)
NoDollar-append [] t h k = k
NoDollar-append (c ∷ s) t (n, h) k = (n, NoDollar-append s t h k)

hex_digit-dollar : (u : Bool) (d : ℕ) → d < 16 → hex_digit u d ≢ b'$'
hex_digit-dollar u d h = ground arith

contains-NoDollar : (s t : Bytes) → NoDollar s → contains s (b'$' ∷ t) ≡ false
unfolding contains starts_with
contains-NoDollar [] t h = refl
contains-NoDollar (c ∷ s) t (n, h) = ground (arith, contains-NoDollar s t h)

-- A name behind a `$` is found in a text whose only `$` is the first byte just where the text begins
-- with it.
contains-starts_with : (s t : Bytes) → NoDollar s → contains (b'$' ∷ s) (b'$' ∷ t) ≡ starts_with s t
unfolding contains starts_with
contains-starts_with s t h = ground (arith, contains-NoDollar s t h)

rp_nmea_get_message_type-contains :
    (body : Bytes) (u v : Bool) (x : ℕ) (rest : Bytes)
    → NoStar body
    → x < 2 ^ 8
    → HexEnds rest
    → let message = sentence body u v x rest in
      rp_nmea_get_message_type message
      ≡ some (
          if xor_of 0 body == x
          then (if contains message (codes "$GPGGA")
              then nmea_gpgga
              else if contains message (codes "$GPRMC")
              then nmea_gprmc
              else nmea_unknown)
          else nmea_checksum_err)
unfolding rp_nmea_get_message_type strchr contains
rp_nmea_get_message_type-contains body u v x rest h l e =
    let m = sentence body u v x rest in
    let a = rp_nmea_valid_checksum-sentence body u v x rest h l e in rw a (ground arith)

-- A sentence whose body has neither `*` nor `$`, with the two hexadecimal digits of a byte x, in
-- capitals or not, behind its `*`, no third one and no `$` after them, has the type of the name with
-- which it begins, GPGGA or GPRMC, and the unknown one if it begins with neither, if x is the
-- exclusive or of the body; it is reported as a checksum error if it is not.
pub rp_nmea_get_message_type-sentence :
    (body : Bytes) (u v : Bool) (x : ℕ) (rest : Bytes)
    → NoStar body
    → NoDollar body
    → x < 2 ^ 8
    → HexEnds rest
    → NoDollar rest
    → let text = body ++ b'*' ∷ hex_digit u (x / 16) ∷ hex_digit v (x % 16) ∷ rest in
      rp_nmea_get_message_type (b'$' ∷ text)
      ≡ some (
          if xor_of 0 body == x
          then (if starts_with text (codes "GPGGA")
              then nmea_gpgga
              else if starts_with text (codes "GPRMC")
              then nmea_gprmc
              else nmea_unknown)
          else nmea_checksum_err)
rp_nmea_get_message_type-sentence body u v x rest h d l e k =
    let tail = b'*' ∷ hex_digit u (x / 16) ∷ hex_digit v (x % 16) ∷ rest in
    let digits : NoDollar tail = (
      omega arith,
      (hex_digit-dollar u (x / 16) (omega arith), (hex_digit-dollar v (x % 16) (omega arith), k)),
    ) in
    let only = NoDollar-append body tail d digits in
    let gga = contains-starts_with (body ++ tail) (codes "GPGGA") only in
    let rmc = contains-starts_with (body ++ tail) (codes "GPRMC") only in
    rp_nmea_get_message_type-contains body u v x rest h l e ∙ (λ i. some (
      if xor_of 0 body == x
      then (if gga i then nmea_gpgga else if rmc i then nmea_gprmc else nmea_unknown)
      else nmea_checksum_err))
