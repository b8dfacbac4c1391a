-- ===== src/Gpio/Exerciser.antt =====
-- The loop of `hardware_exerciser`.
use rp_ecosystem.Base.{
  ℕ, zero, suc, refl, ap, ◌∙◌, arith, length, ◌+◌, ◌-◌, ◌*◌, ◌%◌, bit_and, bit_xor, ◌==◌,
  if◌then◌else◌, List, [], ◌∷◌, not, ◌≡◌, ◌≤◌,
}
use rp_ecosystem.Base.Int.{ℤ, pos, negsuc, ◌+ℤ◌, ◌-ℤ◌, ltb_ℤ, sub_ℕ}

abbrev pub up : ℕ
up = 0

abbrev pub down : ℕ
down = 1

abbrev pub stop : ℕ
stop = 2

abbrev pub one_period : ℕ
one_period = 128

-- `last_button_state`, `count_direction` and `sample`.
pub record Exerciser : Type 0 where
  pub last_button_state : ℕ
  pub count_direction : ℕ
  pub sample : ℤ

-- The direction that newly pushed buttons ask for.
unfoldable pub pushed : ℕ → ℕ → ℕ
pushed difference direction =
    if bit_and difference 0x04 == 0
    then (if bit_and difference 0x02 == 0
        then (if bit_and difference 0x01 == 0 then direction else up)
        else down)
    else stop

-- `sample--; if (sample < -1) sample = ONE_PERIOD-1;`.
unfoldable pub count_down : ℤ → ℤ
count_down sample =
    let s = sample -ℤ pos 1 in if ltb_ℤ s (negsuc 0) then pos (one_period - 1) else s

-- `sample++; sample %= ONE_PERIOD;`; C's remainder has the sign of the sample.
unfoldable pub count_up : ℤ → ℤ
count_up sample =
    let s = sample +ℤ pos 1 in
    elim s [ pos n ↦ pos (n % one_period) | negsuc n ↦ sub_ℕ 0 (suc n % one_period) ]

-- A pass through the loop up to the call that draws the sample. Both tests of the direction are
-- assignments, of `UP` and, when that is 0, of `DOWN`.
unfoldable pub exercise : ℕ → Exerciser → Exerciser
unfolding pushed count_up count_down
exercise buttons e =
    let difference = bit_and (bit_xor buttons e.last_button_state) buttons in
    let direction =
      if difference == 0 then e.count_direction else pushed difference e.count_direction in
    let e = record e { last_button_state = buttons; count_direction = direction } in
    let e = record e { count_direction = up } in
    if not (e.count_direction == 0)
    then record e { sample = count_up e.sample }
    else (let e = record e { count_direction = down } in
        if not (e.count_direction == 0) then record e { sample = count_down e.sample } else e)

-- The state at the start.
abbrev pub started : Exerciser
started = record { last_button_state = 0; count_direction = up; sample = pos 0 }

-- `hardware_exerciser` on the states of the buttons that its passes read.
abbrev pub exercised : List ℕ → Exerciser → Exerciser
exercised [] e = e
exercised (buttons ∷ rest) e = exercised rest (exercise buttons e)

-- The samples of the loop: from -1 to 127.
abbrev pub sample_at : ℕ → ℤ
sample_at zero = negsuc 0
sample_at (suc n) = pos n

count_down-sample_at :
    (j : ℕ) → j ≤ one_period → count_down (sample_at j) ≡ sample_at ((j + one_period) % 129)
unfolding count_down ◌-ℤ◌
count_down-sample_at zero h = refl
count_down-sample_at (suc zero) h = refl
count_down-sample_at (suc (suc n)) h =
    let r : (suc (suc n) + 128) % 129 ≡ suc n = omega arith in rw r (ground arith)

exercise-count_down :
    (buttons : ℕ) (e : Exerciser) → (exercise buttons e).sample ≡ count_down e.sample
unfolding exercise
exercise-count_down buttons e = refl

-- Whatever buttons are pushed, the exerciser counts down: from the sample j - 1, n passes lead to the
-- sample of place j + 128 * n modulo 129 in the sequence from -1 to 127.
exercise-sample_at :
    (buttons : List ℕ) (e : Exerciser) (j : ℕ)
    → j ≤ one_period
    → e.sample ≡ sample_at j
    → (exercised buttons e).sample ≡ sample_at ((j + one_period * length buttons) % 129)
exercise-sample_at [] e j h s = let r : (j + 128 * 0) % 129 ≡ j = omega arith in rw r s
exercise-sample_at (b ∷ rest) e j h s =
    let next : (exercise b e).sample ≡ sample_at ((j + one_period) % 129) =
      exercise-count_down b e ∙ ap count_down s ∙ count_down-sample_at j h in
    let ih = exercise-sample_at rest (exercise b e) ((j + one_period) % 129) (omega arith) next in
    let m : ((j + 128) % 129 + 128 * length rest) % 129 ≡ (j + 128 * suc (length rest)) % 129 =
      omega arith in
    ih ∙ ap sample_at m
