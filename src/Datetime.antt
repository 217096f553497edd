-- ===== src/Datetime.antt =====
-- The datetimes of bluewave/transform.py and bluewave/dedup.py, with the parts of Python's datetime
-- that these files use: the fields, their ranges, `strptime` of CSV_TIMESTAMP_FMT and `strftime` of
-- DEDUP_TIMESTAMP_FMT. Digits are the ASCII ones.
pub mod Laws
use blue_waving.Base.{
  ℕ, ◌+◌, ◌-◌, ◌*◌, ◌/◌, ◌%◌, Bool, not, ◌&&◌, ◌||◌, Option, none, some, [], ◌∷◌, ◌++◌, ltb, leb,
  ◌==◌, if◌then◌else◌, Text, codes, is_space, lstrip,
}

pub record Datetime : Type 0 where
  pub year : ℕ
  pub month : ℕ
  pub day : ℕ
  pub hour : ℕ
  pub minute : ℕ
  pub second : ℕ

unfoldable pub is_leap : ℕ → Bool
is_leap y = (y % 4 == 0) && (not (y % 100 == 0) || (y % 400 == 0))

unfoldable pub days_in_month : ℕ → ℕ → ℕ
unfolding is_leap
days_in_month y m =
    if m == 2
    then (if is_leap y then 29 else 28)
    else if (m == 4) || ((m == 6) || ((m == 9) || (m == 11)))
    then 30
    else 31

-- What the constructor of datetime accepts.
unfoldable pub is_datetime : Datetime → Bool
unfolding days_in_month
is_datetime t =
    (leb 1 t.year && leb t.year 9999)
    && ((leb 1 t.month && leb t.month 12)
        && ((leb 1 t.day && leb t.day (days_in_month t.year t.month))
            && (leb t.hour 23 && (leb t.minute 59 && leb t.second 59))))

abbrev pub is_digit : ℕ → Bool
is_digit c = leb 48 c && leb c 57

-- A field of one or two digits between `lo` and `hi`, as the alternatives of the directive have it:
-- two digits if they are in range, else one.
unfoldable pub read_field : ℕ → ℕ → Text → Option (ℕ × Text)
read_field lo hi [] = none
read_field lo hi (c ∷ []) =
    if is_digit c && (leb lo (c - 48) && leb (c - 48) hi) then some (c - 48, []) else none
read_field lo hi (c ∷ d ∷ t) =
    let v = (c - 48) * 10 + (d - 48) in
    if is_digit c && (is_digit d && (leb lo v && leb v hi))
    then some (v, t)
    else if is_digit c && (leb lo (c - 48) && leb (c - 48) hi)
    then some (c - 48, d ∷ t)
    else none

-- `[1-9]` behind a space
unfoldable pub read_spaced_day : Text → Option (ℕ × Text)
read_spaced_day [] = none
read_spaced_day (d ∷ t) = if leb 49 d && leb d 57 then some (d - 48, t) else none

-- `%d` takes a space and one digit as well.
unfoldable pub read_day : Text → Option (ℕ × Text)
unfolding read_field read_spaced_day
read_day [] = none
read_day (c ∷ t) = if c == 32 then read_spaced_day t else read_field 1 31 (c ∷ t)

-- `%Y`, four digits
unfoldable pub read_year : Text → Option (ℕ × Text)
read_year (a ∷ b ∷ c ∷ d ∷ t) =
    if is_digit a && (is_digit b && (is_digit c && is_digit d))
    then some ((((a - 48) * 10 + (b - 48)) * 10 + (c - 48)) * 10 + (d - 48), t)
    else none
read_year _ = none

unfoldable pub expect : ℕ → Text → Option Text
expect x [] = none
expect x (c ∷ t) = if c == x then some t else none

-- A space in the format stands for `\s+`.
unfoldable pub skip_spaces : Text → Option Text
unfolding lstrip
skip_spaces [] = none
skip_spaces (c ∷ t) = if is_space c then some (lstrip t) else none

-- "unconverted data remains"
unfoldable pub at_end : {A : Type 0} → A → Text → Option A
at_end a [] = some a
at_end a (c ∷ t) = none

infixl 10 ◌>>=◌
abbrev ◌>>=◌ : {A B : Type 0} → Option A → (A → Option B) → Option B
none >>= f = none
some a >>= f = f a

unfoldable pub constructed : Datetime → Option Datetime
unfolding is_datetime
constructed t = if is_datetime t then some t else none

-- `datetime.strptime(value, "%m/%d/%Y %H:%M:%S")`
unfoldable pub strptime : Text → Option Datetime
strptime value = do
  (month, r1) ← read_field 1 12 value
  r2 ← expect b'/' r1
  (day, r3) ← read_day r2
  r4 ← expect b'/' r3
  (year, r5) ← read_year r4
  r6 ← skip_spaces r5
  (hour, r7) ← read_field 0 23 r6
  r8 ← expect b':' r7
  (minute, r9) ← read_field 0 59 r8
  r10 ← expect b':' r9
  (second, r11) ← read_field 0 61 r10
  t ←
      at_end
        (record {
          year = year;
          month = month;
          day = day;
          hour = hour;
          minute = minute;
          second = second;
        })
        r11
  constructed t

-- Two decimal digits, as `%m`, `%d`, `%H`, `%M` and `%S` print.
abbrev pub two_digits : ℕ → Text
two_digits n = (48 + n / 10) ∷ (48 + n % 10) ∷ []

-- `%Y` of the C library: the year's digits without padding.
unfoldable pub year_digits : ℕ → Text
year_digits y =
    if ltb y 10
    then (48 + y) ∷ []
    else if ltb y 100
    then (48 + y / 10) ∷ (48 + y % 10) ∷ []
    else if ltb y 1000
    then (48 + y / 100) ∷ (48 + y / 10 % 10) ∷ (48 + y % 10) ∷ []
    else (48 + y / 1000) ∷ (48 + y / 100 % 10) ∷ (48 + y / 10 % 10) ∷ (48 + y % 10) ∷ []

-- `ts.strftime("%Y-%m-%dT%H:%M:%S.000Z")`
unfoldable pub strftime_utc : Datetime → Text
unfolding year_digits
strftime_utc t =
    year_digits t.year
    ++ (b'-' ∷ two_digits t.month
        ++ (b'-' ∷ two_digits t.day
            ++ (b'T' ∷ two_digits t.hour
                ++ (b':' ∷ two_digits t.minute ++ (b':' ∷ two_digits t.second ++ codes ".000Z")))))

-- `d.strftime("%m/%d/%Y")`
unfoldable pub strftime_date : Datetime → Text
unfolding year_digits
strftime_date t = two_digits t.month ++ (b'/' ∷ two_digits t.day ++ (b'/' ∷ year_digits t.year))
