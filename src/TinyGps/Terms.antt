-- ===== src/TinyGps/Terms.antt =====
-- A sentence as its list of terms, apart from the decoder's characters and its array: what the terms
-- between `$` and `*` mean.
use rp_ecosystem.Base.{
  ℕ, ◌+◌, ◌%◌, ◌^◌, ◌<◌, ◌≢◌, Bool, false, List, [], ◌∷◌, ◌++◌, Bytes, take, ◌==◌, if◌then◌else◌,
}
use rp_ecosystem.TinyGps.State.{
  Fix, Gps, gps_sentence_gpgga, gps_sentence_gprmc, gps_sentence_other,
}
use rp_ecosystem.TinyGps.Encode.{combine, sentence_type_of, store_field, data_good}

-- What a sentence has said so far: its type, the number of the next term, whether it declared its
-- data good, and its values.
pub record Draft : Type 0 where
  pub sentence_type : ℕ
  pub number : ℕ
  pub good : Bool
  pub new : Fix

abbrev pub draft_of : Gps → Draft
draft_of g = record {
  sentence_type = g.sentence_type;
  number = g.term_number;
  good = g.is_gps_data_good;
  new = g.new;
}

-- Behind `$`, with the values that the sentences before left.
abbrev pub blank : Fix → Draft
blank new = record { sentence_type = gps_sentence_other; number = 0; good = false; new = new }

-- The bytes of a term with the readings of the clock.
abbrev pub Term : Type 0
Term = List (ℕ × ℕ)

abbrev pub bytes_of : Term → Bytes
bytes_of [] = []
bytes_of ((c, _) ∷ t) = c ∷ bytes_of t

-- A value: an empty one changes nothing.
abbrev pub accept_value : ℕ → Bytes → Draft → Draft
accept_value clock [] d = d
accept_value clock (c ∷ s) d =
    let code = combine d.sentence_type d.number in
    record d { new = store_field clock code (c ∷ s) d.new; good = data_good code (c ∷ s) d.good }

-- The first term names the type; the terms of a known type are its values by their numbers.
abbrev pub read_term : ℕ → Bytes → Draft → Draft
read_term clock s d =
    if d.number == 0
    then record d { sentence_type = sentence_type_of s }
    else if d.sentence_type == gps_sentence_other
    then d
    else accept_value clock s d

abbrev pub accept_term : ℕ → Bytes → Draft → Draft
accept_term clock s d =
    let d' = read_term clock s d in record d' { number = (d'.number + 1) % 2 ^ 8 }

-- Terms with the reading of the clock at their terminators; of each the first 14 bytes count.
abbrev pub accept_terms : List (Term × ℕ) → Draft → Draft
accept_terms [] d = d
accept_terms ((t, k) ∷ ts) d = accept_terms ts (accept_term k (take 14 (bytes_of t)) d)

-- The characters of terms that commas end.
abbrev pub joined : List (Term × ℕ) → List (ℕ × ℕ)
joined [] = []
joined ((t, k) ∷ ts) = t ++ (b',', k) ∷ joined ts

-- A byte of a term.
abbrev pub IsTermChar : ℕ → Type 0
IsTermChar c =
    (c < 2 ^ 8) × (c ≢ 0) × (c ≢ b'$') × (c ≢ b'*') × (c ≢ b'\r') × (c ≢ b'\n') × (c ≢ b',')

abbrev pub IsTerm : Term → Type 0
IsTerm [] = Unit
IsTerm ((c, _) ∷ t) = IsTermChar c × IsTerm t

abbrev pub AreTerms : List (Term × ℕ) → Type 0
AreTerms [] = Unit
AreTerms ((t, _) ∷ ts) = IsTerm t × AreTerms ts

-- What a sentence publishes: the clocks of its readings, and of its values those of its type.
abbrev pub publish : Draft → Fix → Fix
publish d f =
    let base = record f { time_fix = d.new.time_fix; position_fix = d.new.position_fix } in
    if d.sentence_type == gps_sentence_gprmc
    then record d.new { altitude = f.altitude; hdop = f.hdop; numsats = f.numsats }
    else if d.sentence_type == gps_sentence_gpgga
    then record d.new { date = f.date; speed = f.speed; course = f.course }
    else base
