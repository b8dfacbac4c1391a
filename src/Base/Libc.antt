-- ===== src/Base/Libc.antt =====
-- The functions of the C library that the program calls on strings. A string is the list of its
-- bytes without the NUL byte that ends it; a numeral is clamped to a `long` of 32 bits.
use Prim.Native.Nat.{ℕ, ◌+◌, ◌-◌, ◌*◌, ◌%◌, ◌^◌, ◌<◌}
use mathlib.Core.Path.{◌≡◌, refl, ◌∙◌}
use native.Mathlib.Omega.{arith}
use mathlib.Core.Logic.{◌≢◌}
use mathlib.Core.Bool.{Bool, true, false, ◌&&◌, ◌||◌}
use mathlib.Core.List.{[], ◌∷◌}
use mathlib.Core.Option.{Option, none, some}
use rp_ecosystem.Base.Tests.{ltb, leb, ◌==◌, if◌then◌else◌}
use rp_ecosystem.Base.Lists.{Bytes}
use rp_ecosystem.Base.Int.{ℤ, pos, sub_ℕ}

abbrev pub is_space : ℕ → Bool
is_space c = c == b' ' || (leb 9 c && leb c 13)

unfoldable pub skip_space : Bytes → Bytes
skip_space [] = []
skip_space (c ∷ s) = if is_space c then skip_space s else c ∷ s

-- The value of a digit, below the base.
unfoldable pub digit : ℕ → ℕ → Option ℕ
digit base c =
    let v =
      (if leb b'0' c && leb c b'9'
        then c - b'0'
        else if leb b'a' c && leb c b'z'
        then c - b'a' + 10
        else if leb b'A' c && leb c b'Z'
        then c - b'A' + 10
        else 99) in
    if ltb v base then some v else none

unfoldable pub digits_value : ℕ → ℕ → Bytes → ℕ
unfolding digit
digits_value base acc [] = acc
digits_value base acc (c ∷ s) = elim (digit base c) [
  | none ↦ acc
  | some v ↦ digits_value base (acc * base + v) s
]

-- `0x` before a hexadecimal digit is skipped in base 16.
unfoldable pub skip_prefix : ℕ → Bytes → Bytes
unfolding digit
skip_prefix base (zeroth ∷ x ∷ d ∷ s) =
    if base == 16 && zeroth == b'0' && (x == b'x' || x == b'X')
    then (elim (digit 16 d) [ none ↦ zeroth ∷ x ∷ d ∷ s | some v ↦ d ∷ s ])
    else zeroth ∷ x ∷ d ∷ s
skip_prefix base s = s

-- The sign, and the magnitude with no bound.
unfoldable pub magnitude : ℕ → Bytes → Bool × ℕ
unfolding digits_value skip_prefix
magnitude base [] = (false, 0)
magnitude base (c ∷ s) =
    if c == b'-'
    then (true, digits_value base 0 (skip_prefix base s))
    else if c == b'+'
    then (false, digits_value base 0 (skip_prefix base s))
    else (false, digits_value base 0 (skip_prefix base (c ∷ s)))

-- `strtol`.
unfoldable pub strtol : ℕ → Bytes → ℤ
unfolding magnitude skip_space
strtol base s =
    let (neg, m) = magnitude base (skip_space s) in
    if neg
    then sub_ℕ 0 (if ltb (2 ^ 31) m then 2 ^ 31 else m)
    else pos (if ltb m (2 ^ 31) then m else 2 ^ 31 - 1)

-- `strtoul`: a minus sign negates modulo 2 ^ 32.
unfoldable pub strtoul : ℕ → Bytes → ℕ
unfolding magnitude skip_space
strtoul base s =
    let (neg, m) = magnitude base (skip_space s) in
    if ltb m (2 ^ 32) then (if neg then (2 ^ 32 - m) % 2 ^ 32 else m) else 2 ^ 32 - 1

-- `atoi`.
unfoldable pub atoi : Bytes → ℤ
unfolding strtol
atoi s = strtol 10 s

-- `strcmp(s, t) == 0`.
unfoldable pub str_eq : Bytes → Bytes → Bool
str_eq [] [] = true
str_eq (x ∷ s) (y ∷ t) = x == y && str_eq s t
str_eq _ _ = false

-- `strncmp(s, t, n) == 0`, where `t` is a literal of n bytes.
unfoldable pub starts_with : Bytes → Bytes → Bool
starts_with s [] = true
starts_with [] (y ∷ t) = false
starts_with (x ∷ s) (y ∷ t) = x == y && starts_with s t

-- `strchr(s, c)`: the string from the first such byte on.
unfoldable pub strchr : Bytes → ℕ → Option Bytes
strchr [] c = none
strchr (x ∷ s) c = if x == c then some (x ∷ s) else strchr s c

-- `strstr(s, t) != NULL`.
unfoldable pub contains : Bytes → Bytes → Bool
unfolding starts_with
contains [] t = starts_with [] t
contains (x ∷ s) t = starts_with (x ∷ s) t || contains s t

-- `strcmp` answers zero on equal strings only.
pub eq_of_str_eq : (s t : Bytes) → str_eq s t ≡ true → s ≡ t
unfolding str_eq
eq_of_str_eq [] [] h = refl
eq_of_str_eq [] (y ∷ t) h = cc
eq_of_str_eq (x ∷ s) [] h = cc
eq_of_str_eq (x ∷ s) (y ∷ t) h = ground (arith, eq_of_str_eq s t)

pub str_eq_refl : (s : Bytes) → str_eq s s ≡ true
unfolding str_eq
str_eq_refl [] = refl
str_eq_refl (x ∷ s) = ground (arith, str_eq_refl s)

-- The hexadecimal digits, in capitals or not.
abbrev pub hex_digit : Bool → ℕ → ℕ
hex_digit capital x =
    if ltb x 10 then b'0' + x else if capital then b'A' + x - 10 else b'a' + x - 10

-- A byte that does not go on a hexadecimal numeral begins the rest, or there is none.
abbrev pub HexEnds : Bytes → Type 0
HexEnds [] = Unit
HexEnds (c ∷ s) = digit 16 c ≡ none

digit-hex_digit : (u : Bool) (x : ℕ) → x < 16 → digit 16 (hex_digit u x) ≡ some x
unfolding digit
digit-hex_digit u x h = ground arith

is_space-hex_digit : (u : Bool) (x : ℕ) → x < 16 → is_space (hex_digit u x) ≡ false
is_space-hex_digit u x h = ground arith

digits_value-HexEnds : (acc : ℕ) (s : Bytes) → HexEnds s → digits_value 16 acc s ≡ acc
unfolding digits_value
digits_value-HexEnds acc [] h = refl
digits_value-HexEnds acc (c ∷ s) h = rw (h, digits_value) refl

not_prefix :
    (u v : Bool) (x y : ℕ) (s : Bytes)
    → y < 16
    → skip_prefix 16 (hex_digit u x ∷ hex_digit v y ∷ s) ≡ hex_digit u x ∷ hex_digit v y ∷ s
unfolding skip_prefix
not_prefix u v x y [] h = refl
not_prefix u v x y (c ∷ s) h = ground arith

skip_space-hex_digit :
    (u : Bool) (x : ℕ) (s : Bytes) → x < 16 → skip_space (hex_digit u x ∷ s) ≡ hex_digit u x ∷ s
unfolding skip_space
skip_space-hex_digit u x s h = rw (is_space-hex_digit u x h) refl

not_sign : (u : Bool) (x : ℕ) → x < 16 → (hex_digit u x ≢ b'-') × (hex_digit u x ≢ b'+')
not_sign u x h = ground arith

two_digits_value :
    (u v : Bool) (x y : ℕ) (s : Bytes)
    → x < 16
    → y < 16
    → HexEnds s
    → digits_value 16 0 (hex_digit u x ∷ hex_digit v y ∷ s) ≡ 16 * x + y
unfolding digits_value
two_digits_value u v x y s h k e =
    rw (digits_value, digit-hex_digit u x h, digit-hex_digit v y k)
      (digits_value-HexEnds ((0 * 16 + x) * 16 + y) s e ∙ omega arith)

magnitude-hex_digit :
    (u v : Bool) (x y : ℕ) (s : Bytes)
    → x < 16
    → y < 16
    → HexEnds s
    → magnitude 16 (hex_digit u x ∷ hex_digit v y ∷ s) ≡ (false, 16 * x + y)
unfolding magnitude
magnitude-hex_digit u v x y s h k e =
    let p = not_prefix u v x y s k in
    let q = two_digits_value u v x y s h k e in
    let (a, b) = not_sign u x h in rw (p, q) (ground arith)

-- `strtol` in base 16 reads two hexadecimal digits.
pub strtol-hex_digit :
    (u v : Bool) (x y : ℕ) (s : Bytes)
    → x < 16
    → y < 16
    → HexEnds s
    → strtol 16 (hex_digit u x ∷ hex_digit v y ∷ s) ≡ pos (16 * x + y)
unfolding strtol
strtol-hex_digit u v x y s h k e =
    rw (skip_space-hex_digit u x (hex_digit v y ∷ s) h, magnitude-hex_digit u v x y s h k e)
      (ground arith)
