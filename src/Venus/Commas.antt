-- ===== src/Venus/Commas.antt =====
-- `rp_GetComma`, and the time and date of `rp_NmeaParseGprmc`.
use rp_ecosystem.Base.{
  ℕ, zero, suc, ◌+◌, ◌-◌, ◌%◌, ◌^◌, Option, none, some, Bytes, drop, length, get_or, ltb,
  if◌then◌else◌,
}
use rp_ecosystem.Base.Int.{ℤ, pos, ◌+ℤ◌, ◌-ℤ◌, ◌*ℤ◌}
use rp_ecosystem.Base.Libc.{strchr}

-- The loop of `rp_GetComma` from `ptr` on, with `num - count` commas to go; none is the null pointer.
unfoldable pub comma_from : ℕ → Bytes → Option Bytes
unfolding strchr
comma_from zero ptr = some ptr
comma_from (suc n) ptr = elim (strchr ptr b',') [ none ↦ none | some p ↦ comma_from n (drop 1 p) ]

-- `rp_GetComma`: the offset behind the comma of a number; none where the text has fewer commas, and
-- the code subtracts from a null pointer.
unfoldable pub rp_get_comma : ℕ → Bytes → Option ℕ
unfolding comma_from
rp_get_comma num line = elim (comma_from num line) [
  | none ↦ none
  | some ptr ↦ some (length line - length ptr)
]

-- `DATE_TIME`.
pub record DateTime : Type 0 where
  pub year : ℤ
  pub month : ℤ
  pub day : ℤ
  pub hour : ℤ
  pub minute : ℤ
  pub second : ℤ

-- `(buf[i] - '0') * 10 + (buf[i + 1] - '0')`.
unfoldable pub two_at : (ℕ → ℕ) → ℕ → ℤ
two_at buf i = (pos (buf i) -ℤ pos b'0') *ℤ pos 10 +ℤ (pos (buf (i + 1)) -ℤ pos b'0')

-- What the buffer holds behind the text is a parameter.
module _ (behind : ℕ → ℕ) where
  abbrev pub byte_of : Bytes → ℕ → ℕ
  byte_of line i = if ltb i (length line) then get_or line i 0 else behind i

  -- The assignments to `GPS->D`, with the offset of the date.
  unfoldable pub date_time_at : Bytes → ℕ → DateTime
  unfolding two_at
  date_time_at line tmp =
      let buf = byte_of line in
      record {
        year = two_at buf (tmp + 4) +ℤ pos 2000;
        month = two_at buf (tmp + 2);
        day = two_at buf (tmp + 0);
        hour = two_at buf 7;
        minute = two_at buf 9;
        second = two_at buf 11;
      }

  -- `rp_NmeaParseGprmc`, as far as it sets `GPS->D`; the offset is kept in a `uint8_t`.
  unfoldable pub parse_date_time : Bytes → Option DateTime
  unfolding rp_get_comma date_time_at
  parse_date_time line = elim (rp_get_comma 9 line) [
    | none ↦ none
    | some comma ↦ some (date_time_at line (comma % 2 ^ 8))
  ]
