-- ===== src/Base/Numerals.antt =====
-- `atoi` on a decimal numeral.
use Prim.Native.Nat.{◌^◌, ◌≤◌, ◌<◌}
use mathlib.Core.Path.{◌≡◌, refl}
use mathlib.Core.Bool.{false}
use mathlib.Core.List.{[], ◌∷◌}
use native.Mathlib.Omega.{arith}
use rp_ecosystem.Base.Lists.{Bytes}
use rp_ecosystem.Base.Int.{pos, sub_ℕ}
use rp_ecosystem.Base.Libc.{atoi, strtol, magnitude, skip_prefix, skip_space, digits_value}

-- A text that begins with a decimal digit.
abbrev pub IsNumeral : Bytes → Type 0
IsNumeral [] = ⊥
IsNumeral (c ∷ s) = (b'0' ≤ c) × (c ≤ b'9')

pub no_prefix : (s : Bytes) → skip_prefix 10 s ≡ s
unfolding skip_prefix
no_prefix [] = refl
no_prefix (a ∷ []) = refl
no_prefix (a ∷ b ∷ []) = refl
no_prefix (a ∷ b ∷ c ∷ s) = refl

skip_space-IsNumeral : (s : Bytes) → IsNumeral s → skip_space s ≡ s
unfolding skip_space
skip_space-IsNumeral [] h = elim h [ ]
skip_space-IsNumeral (c ∷ s) h = ground arith

magnitude-IsNumeral : (s : Bytes) → IsNumeral s → magnitude 10 s ≡ (false, digits_value 10 0 s)
unfolding magnitude
magnitude-IsNumeral [] h = elim h [ ]
magnitude-IsNumeral (c ∷ s) h = let p = no_prefix (c ∷ s) in ground arith

-- `atoi` of a numeral is its value, clamped to 2 ^ 31 - 1.
pub atoi-IsNumeral :
    (s : Bytes) → IsNumeral s → digits_value 10 0 s < 2 ^ 31 → atoi s ≡ pos (digits_value 10 0 s)
unfolding atoi strtol
atoi-IsNumeral s h b = rw (skip_space-IsNumeral s h, magnitude-IsNumeral s h) (ground arith)

-- `atoi` of a minus sign and a numeral is its value's negative.
pub atoi-minus :
    (s : Bytes)
    → IsNumeral s
    → digits_value 10 0 s ≤ 2 ^ 31
    → atoi (b'-' ∷ s) ≡ sub_ℕ 0 (digits_value 10 0 s)
unfolding atoi strtol skip_space magnitude
atoi-minus s h b = let m = magnitude-IsNumeral s h in let p = no_prefix s in ground arith
