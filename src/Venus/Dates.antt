-- ===== src/Venus/Dates.antt =====
-- The time and the date of a well-formed sentence.
use rp_ecosystem.Base.{
  ℕ, suc, ◌+◌, ◌-◌, ◌/◌, ◌%◌, ◌^◌, ◌<◌, ◌≡◌, ◌≢◌, refl, sym, ap, ◌∙◌, arith, List, [], ◌∷◌, ◌++◌,
  none, some, Bytes, length, length-append, get_or, drop, ltb, ◌==◌, true, false,
}
use rp_ecosystem.Base.Text.{codes}
use rp_ecosystem.Base.Int.{pos, ◌+ℤ◌, ◌-ℤ◌, ◌*ℤ◌}
use rp_ecosystem.Base.Libc.{strchr}
use rp_ecosystem.Venus.Commas.{
  comma_from, rp_get_comma, two_at, byte_of, date_time_at, parse_date_time,
}

-- Fields, each with a comma behind it.
abbrev pub joined : List Bytes → Bytes
joined [] = []
joined (f ∷ fs) = f ++ b',' ∷ joined fs

abbrev pub HasNoComma : Bytes → Type 0
HasNoComma [] = Unit
HasNoComma (c ∷ s) = (c ≢ b',') × HasNoComma s

abbrev pub AreFields : List Bytes → Type 0
AreFields [] = Unit
AreFields (f ∷ fs) = HasNoComma f × AreFields fs

strchr-field : (f rest : Bytes) → HasNoComma f → strchr (f ++ b',' ∷ rest) b',' ≡ some (b',' ∷ rest)
unfolding strchr
strchr-field [] rest h = refl
strchr-field (c ∷ f) rest h =
    let ne : (c == b',') ≡ false = ground (arith, h.0) in rw ne (strchr-field f rest h.1)

append_assoc : (s t u : Bytes) → (s ++ t) ++ u ≡ s ++ (t ++ u)
append_assoc [] t u = refl
append_assoc (c ∷ s) t u = ap (◌∷◌ c) (append_assoc s t u)

comma_from-joined :
    (fs : List Bytes) (rest : Bytes)
    → AreFields fs
    → comma_from (length fs) (joined fs ++ rest) ≡ some rest
unfolding comma_from
comma_from-joined [] rest h = refl
comma_from-joined (f ∷ fs) rest h =
    let n = length fs in
    ap (comma_from (suc n)) (append_assoc f (b',' ∷ joined fs) rest)
    ∙ ap (λ o. elim o [ none ↦ none | some p ↦ comma_from n (drop 1 p) ])
        (strchr-field f (joined fs ++ rest) h.0)
    ∙ comma_from-joined fs rest h.1

-- `rp_GetComma` of n gives the offset of the field behind n fields.
pub rp_get_comma-joined :
    (fs : List Bytes) (rest : Bytes)
    → AreFields fs
    → rp_get_comma (length fs) (joined fs ++ rest) ≡ some (length (joined fs))
unfolding rp_get_comma
rp_get_comma-joined fs rest h =
    let line = joined fs ++ rest in
    ap (λ o. elim o [ none ↦ none | some ptr ↦ some (length line - length ptr) ])
      (comma_from-joined fs rest h)
    ∙ ap some (omega (arith, length-append (joined fs) rest))

get_or-append : (s t : Bytes) (k : ℕ) → get_or (s ++ t) (length s + k) 0 ≡ get_or t k 0
get_or-append [] t k = let e : 0 + k ≡ k = omega arith in rw e refl
get_or-append (c ∷ s) t k =
    let e : suc (length s) + k ≡ suc (length s + k) = omega arith in rw e (get_or-append s t k)

-- The characters of a number of two digits.
abbrev pub two : ℕ → Bytes → Bytes
two n rest = (b'0' + n / 10) ∷ (b'0' + n % 10) ∷ rest

two-value :
    (n : ℕ)
    → n < 100
    → (pos (b'0' + n / 10) -ℤ pos b'0') *ℤ pos 10 +ℤ (pos (b'0' + n % 10) -ℤ pos b'0') ≡ pos n
unfolding ◌+ℤ◌ ◌-ℤ◌ ◌*ℤ◌
two-value n h = ground arith

-- The bytes behind the fields, where the text still has them.
byte_of-append :
    (behind : ℕ → ℕ) (s t : Bytes) (k : ℕ)
    → k < length t
    → byte_of behind (s ++ t) (length s + k) ≡ get_or t k 0
byte_of-append behind s t k h =
    let inside : ltb (length s + k) (length (s ++ t)) ≡ true = ground (arith, length-append s t) in
    rw inside (get_or-append s t k)

two_at-append :
    (behind : ℕ → ℕ) (s t : Bytes) (k n : ℕ)
    → k + 1 < length t
    → get_or t k 0 ≡ b'0' + n / 10
    → get_or t (k + 1) 0 ≡ b'0' + n % 10
    → n < 100
    → two_at (byte_of behind (s ++ t)) (length s + k) ≡ pos n
unfolding two_at
two_at-append behind s t k n l x y h =
    let e : length s + k + 1 ≡ length s + (k + 1) = omega arith in
    rw (e, byte_of-append behind s t k (omega arith), byte_of-append behind s t (k + 1) l, x, y)
      (two-value n h)

century : (y : ℕ) → pos y +ℤ pos 2000 ≡ pos (y + 2000)
unfolding ◌+ℤ◌
century y = ground arith

-- The fields before the date: the name, the time and seven more.
abbrev pub before : ℕ → ℕ → ℕ → Bytes → List Bytes → List Bytes
before h m s more fs = codes "$GPRMC" ∷ two h (two m (two s more)) ∷ fs

-- Of a sentence `$GPRMC`, a field that begins with the time hhmmss, seven more fields, and a date
-- ddmmyy behind the ninth comma, within the first 256 bytes, the parser reads that time and that date
-- in this century, whatever the buffer holds behind the text.
pub parse_date_time-before :
    (behind : ℕ → ℕ) (h m s d mo y : ℕ) (more : Bytes) (fs : List Bytes) (rest : Bytes)
    → h < 100
    → m < 100
    → s < 100
    → d < 100
    → mo < 100
    → y < 100
    → AreFields (before h m s more fs)
    → length fs ≡ 7
    → length (joined (before h m s more fs)) < 2 ^ 8
    → parse_date_time behind (joined (before h m s more fs) ++ two d (two mo (two y rest)))
      ≡ some (record {
        year = pos (y + 2000);
        month = pos mo;
        day = pos d;
        hour = pos h;
        minute = pos m;
        second = pos s;
      })
unfolding parse_date_time date_time_at
parse_date_time-before behind h m s d mo y more fs rest h0 h1 h2 h3 h4 h5 a l b =
    let pre = joined (before h m s more fs) in
    let date = two d (two mo (two y rest)) in
    let line = pre ++ date in
    let head = codes "$GPRMC," in
    let tail = two h (two m (two s ((more ++ b',' ∷ joined fs) ++ date))) in
    let nine : suc (suc (length fs)) ≡ 9 = omega arith in
    let comma : rp_get_comma 9 line ≡ some (length pre) =
      ap (λ n. rp_get_comma n line) (sym nine)
      ∙ rp_get_comma-joined (before h m s more fs) date a in
    let tmp : length pre % 2 ^ 8 ≡ length pre = omega arith in
    let hh : two_at (byte_of behind line) 7 ≡ pos h =
      two_at-append behind head tail 0 h (omega arith) refl refl h0 in
    let mm : two_at (byte_of behind line) 9 ≡ pos m =
      two_at-append behind head tail 2 m (omega arith) refl refl h1 in
    let ss : two_at (byte_of behind line) 11 ≡ pos s =
      two_at-append behind head tail 4 s (omega arith) refl refl h2 in
    let dd = two_at-append behind pre date 0 d (omega arith) refl refl h3 in
    let mo' = two_at-append behind pre date 2 mo (omega arith) refl refl h4 in
    let yy : two_at (byte_of behind line) (length pre + 4) +ℤ pos 2000 ≡ pos (y + 2000) =
      ap (λ v. v +ℤ pos 2000) (two_at-append behind pre date 4 y (omega arith) refl refl h5)
      ∙ century y in
    ap (λ o. elim o [ none ↦ none | some c ↦ some (date_time_at behind line (c % 2 ^ 8)) ]) comma
    ∙ ap (λ c. some (date_time_at behind line c)) tmp
    ∙ (λ i. some (record {
      year = yy i;
      month = mo' i;
      day = dd i;
      hour = hh i;
      minute = mm i;
      second = ss i;
    }))
