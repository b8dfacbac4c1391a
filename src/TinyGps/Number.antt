-- ===== src/TinyGps/Number.antt =====
-- The digits of tinygps.c: `gpsisdigit`, `from_hex`, `gpsatol`, `gpsstrcmp`, `gps_parse_decimal` and
-- `gps_parse_degrees`. A pointer into a C string is the list of the bytes from it on; the end of
-- the list reads as the NUL byte.
use rp_ecosystem.Base.{
  ℕ, ◌+◌, ◌-◌, ◌*◌, ◌/◌, ◌%◌, ◌^◌, Bool, ◌&&◌, not, [], ◌∷◌, leb, ◌==◌, if◌then◌else◌, Bytes, drop,
}

-- `*p`.
abbrev pub peek : Bytes → ℕ
peek [] = 0
peek (c ∷ s) = c

unfoldable pub gpsisdigit : ℕ → Bool
gpsisdigit c = leb b'0' c && leb c b'9'

-- An `int`, as its bit pattern of 32 bits: below `'0'` it is negative.
unfoldable pub from_hex : ℕ → ℕ
from_hex a =
    if leb b'A' a && leb a b'F'
    then a - b'A' + 10
    else if leb b'a' a && leb a b'f'
    then a - b'a' + 10
    else (a + 2 ^ 32 - b'0') % 2 ^ 32

-- The loop of `gpsatol`, on `ret`.
unfoldable pub gpsatol_from : ℕ → Bytes → ℕ
unfolding gpsisdigit
gpsatol_from ret [] = ret
gpsatol_from ret (c ∷ s) =
    let rest = gpsatol_from ((10 * ret + c - b'0') % 2 ^ 32) s in if gpsisdigit c then rest else ret

unfoldable pub gpsatol : Bytes → ℕ
unfolding gpsatol_from
gpsatol str = gpsatol_from 0 str

-- `while (gpsisdigit(*p)) ++p;`.
unfoldable pub skip_digits : Bytes → Bytes
unfolding gpsisdigit
skip_digits [] = []
skip_digits (c ∷ s) = if gpsisdigit c then skip_digits s else c ∷ s

-- Zero if the strings are equal up to the end of the first; the code returns `*str1`.
unfoldable pub gpsstrcmp : Bytes → Bytes → ℕ
gpsstrcmp [] t = 0
gpsstrcmp (c ∷ s) t =
    let rest = gpsstrcmp s (drop 1 t) in if not (c == 0) && c == peek t then rest else c

-- The hundredths behind a decimal point.
unfoldable pub hundredths : Bytes → ℕ
unfolding gpsisdigit
hundredths p =
    let p1 = peek (drop 1 p) in
    let p2 = peek (drop 2 p) in
    if peek p == b'.' && gpsisdigit p1
    then 10 * (p1 - b'0') + (if gpsisdigit p2 then p2 - b'0' else 0)
    else 0

-- Two's complement on 32 bits.
abbrev pub neg32 : ℕ → ℕ
neg32 x = (2 ^ 32 - x) % 2 ^ 32

unfoldable pub gps_parse_decimal : Bytes → ℕ
unfolding gpsatol skip_digits hundredths
gps_parse_decimal term =
    let isneg = peek term == b'-' in
    let p = if isneg then drop 1 term else term in
    let ret = (100 * gpsatol p + hundredths (skip_digits p)) % 2 ^ 32 in
    if isneg then neg32 ret else ret

-- The loop behind the decimal point: `mult` falls from 1000 to 0 by tens.
unfoldable pub minutes_from : ℕ → ℕ → Bytes → ℕ
unfolding gpsisdigit
minutes_from mult acc [] = acc
minutes_from mult acc (c ∷ s) =
    let rest = minutes_from (mult / 10) ((acc + mult * (c - b'0')) % 2 ^ 32) s in
    if gpsisdigit c then rest else acc

unfoldable pub gps_parse_degrees : Bytes → ℕ
unfolding gpsatol skip_digits minutes_from
gps_parse_degrees term =
    let left = gpsatol term in
    let tenk_minutes = left % 100 * 10000 in
    let p = skip_digits term in
    let tenk = if peek p == b'.' then minutes_from 1000 tenk_minutes (drop 1 p) else tenk_minutes in
    (left / 100 * 100000 + tenk / 6) % 2 ^ 32
