-- ===== src/Gpio/Strings.antt =====
-- `strcat` of gpio_led_test.c, on memory by bytes.
use rp_ecosystem.Base.{
  ℕ, zero, suc, ◌+◌, ◌<◌, [], ◌∷◌, ◌++◌, Option, none, some, false, ◌>>=◌, Bytes, length, ◌==◌,
  if◌then◌else◌, ◌≡◌, ◌≢◌, ◌⊎◌, inl, subst, ◌∙◌, arith,
}

abbrev pub Memory : Type 0
Memory = ℕ → ℕ

abbrev pub store : Memory → ℕ → ℕ → Memory
store m a v = λ b. if b == a then v else m b

-- `while (*d) ++d;`, on fuel; none if it runs out.
unfoldable pub end_of : ℕ → Memory → ℕ → Option ℕ
end_of zero m d = none
end_of (suc fuel) m d = let rest = end_of fuel m (d + 1) in if m d == 0 then some d else rest

-- `while ((*d++ = *source++) != '\0') ;`.
unfoldable pub copy : ℕ → Memory → ℕ → ℕ → Option Memory
copy zero m d source = none
copy (suc fuel) m d source =
    let m' = store m d (m source) in
    let rest = copy fuel m' (d + 1) (source + 1) in if m source == 0 then some m' else rest

unfoldable pub strcat : ℕ → Memory → ℕ → ℕ → Option Memory
unfolding end_of copy
strcat fuel m destination source = do d ← end_of fuel m destination; copy fuel m d source

-- The string at an address: bytes that are not NUL, and a NUL byte behind them.
abbrev pub Holds : Memory → ℕ → Bytes → Type 0
Holds m a [] = m a ≡ 0
Holds m a (x ∷ xs) = (m a ≡ x) × (x ≢ 0) × Holds m (a + 1) xs

-- An address outside of n + 1 bytes.
abbrev pub Outside : ℕ → ℕ → ℕ → Type 0
Outside b a n = (b < a) ⊎ (a + n < b)

end_of-Holds :
    (fuel : ℕ) (m : Memory) (a : ℕ) (xs : Bytes)
    → Holds m a xs
    → length xs < fuel
    → end_of fuel m a ≡ some (a + length xs)
unfolding end_of
end_of-Holds zero m a xs h l = absurd (omega arith)
end_of-Holds (suc fuel) m a [] h l = ground arith
end_of-Holds (suc fuel) m a (x ∷ xs) (e, n, h) l =
    let ih = end_of-Holds fuel m (a + 1) xs h (omega arith) in
    let s : a + 1 + length xs ≡ a + suc (length xs) = omega arith in ground (arith, ih, s)

-- A write in front of a string or behind it leaves it.
Holds-store :
    (m : Memory) (a b v : ℕ) (xs : Bytes)
    → Outside b a (length xs)
    → Holds m a xs
    → Holds (store m b v) a xs
Holds-store m a b v [] o h = ground arith
Holds-store m a b v (x ∷ xs) o (e, n, h) =
    (ground arith, n, Holds-store m (a + 1) b v xs (ground arith) h)

store_same : (m : Memory) (a v : ℕ) → store m a v a ≡ v
store_same m a v = ground arith

store_other : (m : Memory) (a v b : ℕ) → b ≢ a → store m a v b ≡ m b
store_other m a v b h = ground arith

-- Two stretches of n + 1 bytes with no byte in common.
abbrev pub Apart : ℕ → ℕ → ℕ → Type 0
Apart a b n = (a + n < b) ⊎ (b + n < a)

copy-Holds :
    (fuel : ℕ) (m : Memory) (d s : ℕ) (ys : Bytes)
    → Holds m s ys
    → Apart d s (length ys)
    → length ys < fuel
    → (m' : Memory) × (copy fuel m d s ≡ some m')
      × Holds m' d ys
      × ((b : ℕ) → Outside b d (length ys) → m' b ≡ m b)
unfolding copy
copy-Holds zero m d s ys h o l = absurd (omega arith)
copy-Holds (suc fuel) m d s [] h o l =
    (store m d (m s), ground arith, ground arith, λ b c. ground arith)
copy-Holds (suc fuel) m d s (y ∷ ys) (e, n, h) o l =
    let m1 = store m d (m s) in
    let kept = Holds-store m (s + 1) d (m s) ys (ground arith) h in
    let (m', f, k, u) = copy-Holds fuel m1 (d + 1) (s + 1) ys kept (ground arith) (omega arith) in
    let first : m' d ≡ m s = u d (inl (omega arith)) ∙ store_same m d (m s) in
    let more : (m s == 0) ≡ false = ground arith in
    let run : copy (suc fuel) m d s ≡ some m' = rw more f in
    (m', run, (first ∙ e, n, k), λ b c. u b (ground arith) ∙ store_other m d (m s) b (ground arith))

Holds-append :
    (m m' : Memory) (a : ℕ) (xs ys : Bytes)
    → Holds m a xs
    → ((b : ℕ) → b < a + length xs → m' b ≡ m b)
    → Holds m' (a + length xs) ys
    → Holds m' a (xs ++ ys)
Holds-append m m' a [] ys h u k = let z : a + 0 ≡ a = omega arith in subst (λ c. Holds m' c ys) z k
Holds-append m m' a (x ∷ xs) ys (e, n, h) u k =
    let z : a + suc (length xs) ≡ a + 1 + length xs = omega arith in
    (
      u a (omega arith) ∙ e,
      n,
      Holds-append m m' (a + 1) xs ys h (λ b c. u b (omega arith)) (subst (λ c. Holds m' c ys) z k),
    )

-- With fuel for both strings, `strcat` ends: if the place behind the first string, as long as the
-- second with its NUL byte, and the second have no byte in common, the destination then holds both
-- strings one after the other, and no other byte is changed.
pub strcat-append :
    (fuel : ℕ) (m : Memory) (destination source : ℕ) (xs ys : Bytes)
    → Holds m destination xs
    → Holds m source ys
    → Apart (destination + length xs) source (length ys)
    → length xs < fuel
    → length ys < fuel
    → (m' : Memory) × (strcat fuel m destination source ≡ some m')
      × Holds m' destination (xs ++ ys)
      × ((b : ℕ) → Outside b (destination + length xs) (length ys) → m' b ≡ m b)
unfolding strcat
strcat-append fuel m destination source xs ys h k o l l' =
    let d = destination + length xs in
    let (m', f, r, u) = copy-Holds fuel m d source ys k o l' in
    (
      m',
      rw (end_of-Holds fuel m destination xs h l) f,
      Holds-append m m' destination xs ys h (λ b c. u b (inl c)) r,
      u,
    )
