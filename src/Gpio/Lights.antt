-- ===== src/Gpio/Lights.antt =====
-- The lights: the number of bars of a sample, and the patterns.
use rp_ecosystem.Base.{ℕ, ◌-◌, ◌≤◌, ◌<◌, ◌≡◌, refl, ap, true, arith, ◌/◌, ◌^◌, ◌==◌, if◌then◌else◌}
use rp_ecosystem.Base.Bits.{all_below, all_below-lt}
use rp_ecosystem.Base.Int.{ℤ, pos, negsuc}

abbrev pub amplitude : ℕ
amplitude = 256

abbrev pub number_of_leds : ℕ
number_of_leds = 8

-- The styles.
abbrev pub cylon : ℕ
cylon = 1

abbrev pub bar : ℕ
bar = 2

abbrev pub binary : ℕ
binary = 3

-- The cases of `doBarGraph` for the two styles of bars.
unfoldable pub bar_pattern : ℤ → ℕ
bar_pattern (negsuc n) = 0x55
bar_pattern (pos value) =
    if value == 0
    then 0x00
    else if value == 1
    then 0x01
    else if value == 2
    then 0x03
    else if value == 3
    then 0x07
    else if value == 4
    then 0x0f
    else if value == 5
    then 0x1f
    else if value == 6
    then 0x3f
    else if value == 7
    then 0x7f
    else if value == 8
    then 0xff
    else 0x55

unfoldable pub cylon_pattern : ℤ → ℕ
cylon_pattern (negsuc n) = 0x55
cylon_pattern (pos value) =
    if value == 0
    then 0x01
    else if value == 1
    then 0x02
    else if value == 2
    then 0x04
    else if value == 3
    then 0x08
    else if value == 4
    then 0x10
    else if value == 5
    then 0x20
    else if value == 6
    then 0x40
    else if value == 7
    then 0x80
    else 0x55

-- What `doBarGraph` writes to the lights.
unfoldable pub do_bar_graph : ℤ → ℕ → ℤ
unfolding bar_pattern cylon_pattern
do_bar_graph value style =
    if style == bar
    then pos (bar_pattern value)
    else if style == cylon
    then pos (cylon_pattern value)
    else if style == binary
    then value
    else pos 0x69

-- `driveBarGraph` of a value that is not negative: the conversion to `int` of a quotient by 32 in
-- floating point is the quotient without its remainder.
unfoldable pub drive_bar_graph : ℕ → ℤ
unfolding do_bar_graph
drive_bar_graph value = do_bar_graph (pos (value / (amplitude / number_of_leds))) cylon

cylon_table : all_below 8 (λ n. cylon_pattern (pos n) == 2 ^ n) ≡ true
unfolding all_below cylon_pattern
cylon_table = refl

bar_table : all_below 9 (λ n. bar_pattern (pos n) == 2 ^ n - 1) ≡ true
unfolding all_below bar_pattern
bar_table = refl

cylon_value : (n : ℕ) → n < 8 → cylon_pattern (pos n) ≡ 2 ^ n
cylon_value n h =
    let t = all_below-lt 8 (λ n. cylon_pattern (pos n) == 2 ^ n) n cylon_table h in ground arith

bar_value : (n : ℕ) → n < 9 → bar_pattern (pos n) ≡ 2 ^ n - 1
bar_value n h =
    let t = all_below-lt 9 (λ n. bar_pattern (pos n) == 2 ^ n - 1) n bar_table h in ground arith

-- In the style of bars, the value n lights the n lowest lights, up to all eight.
pub do_bar_graph-bar : (n : ℕ) → n ≤ 8 → do_bar_graph (pos n) bar ≡ pos (2 ^ n - 1)
unfolding do_bar_graph
do_bar_graph-bar n h = ap pos (bar_value n (omega arith))

-- A sample below the amplitude lights the one light of the eighth in which it lies.
pub drive_bar_graph-one :
    (value : ℕ) → value < amplitude → drive_bar_graph value ≡ pos (2 ^ (value / 32))
unfolding drive_bar_graph do_bar_graph
drive_bar_graph-one value h = ap pos (cylon_value (value / 32) (omega arith))
