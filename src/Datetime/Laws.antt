-- ===== src/Datetime/Laws.antt =====
-- The timestamps of the CSV and the canonical ones, printed and read.
use blue_waving.Base.{
  lacks-append, ℕ, ◌+◌, ◌-◌, ◌*◌, ◌/◌, ◌%◌, ◌≤◌, ◌<◌, ◌≡◌, refl, true, false, some, [], ◌∷◌, ◌++◌,
  arith, ◌==◌, Text, codes, lacks, split_at_sep, is_space, lstrip,
}
use blue_waving.Datetime.{
  Datetime, is_datetime, days_in_month, read_field, read_day, read_year, expect, skip_spaces,
  at_end, constructed, strptime, two_digits, year_digits, strftime_utc,
}

-- How BlueWeb prints a datetime in its CSV.
abbrev pub csv_timestamp : Datetime → Text
csv_timestamp t =
    two_digits t.month
    ++ (b'/' ∷ two_digits t.day
        ++ (b'/'
              ∷ (48 + t.year / 1000)
              ∷ (48 + t.year / 100 % 10)
              ∷ (48 + t.year / 10 % 10)
              ∷ (48 + t.year % 10)
              ∷ b' '
              ∷ two_digits t.hour
            ++ (b':' ∷ two_digits t.minute ++ (b':' ∷ two_digits t.second))))

pub read_field-two_digits :
    (lo hi n : ℕ) (t : Text)
    → lo ≤ n
    → n ≤ hi
    → n < 100
    → read_field lo hi (two_digits n ++ t) ≡ some (n, t)
unfolding read_field
read_field-two_digits lo hi n t l h b =
    let e : (48 + n / 10 - 48) * 10 + (48 + n % 10 - 48) ≡ n = omega arith in rw e (ground arith)

read_day-two_digits :
    (n : ℕ) (t : Text) → 1 ≤ n → n ≤ 31 → read_day (two_digits n ++ t) ≡ some (n, t)
unfolding read_day
read_day-two_digits n t l h =
    let e : ((48 + n / 10) == 32) ≡ false = ground arith in
    rw e (read_field-two_digits 1 31 n t l h (omega arith))

is_space-digit : (c : ℕ) → 48 ≤ c → c ≤ 57 → is_space c ≡ false
is_space-digit c l h = ground arith

skip_spaces-two_digits :
    (n : ℕ) (t : Text) → n < 100 → skip_spaces (b' ' ∷ two_digits n ++ t) ≡ some (two_digits n ++ t)
unfolding skip_spaces lstrip
skip_spaces-two_digits n t b = rw (is_space-digit (48 + n / 10) (omega arith) (omega arith))

read_year-four_digits :
    (y : ℕ) (t : Text)
    → y < 10000
    → read_year ((48 + y / 1000) ∷ (48 + y / 100 % 10) ∷ (48 + y / 10 % 10) ∷ (48 + y % 10) ∷ t)
      ≡ some (y, t)
unfolding read_year
read_year-four_digits y t b =
    let e : (((48 + y / 1000 - 48) * 10 + (48 + y / 100 % 10 - 48)) * 10 + (48 + y / 10 % 10 - 48))
            * 10
          + (48 + y % 10 - 48)
        ≡ y =
      omega arith in
    rw e (ground arith)

days_in_month-le : (y m : ℕ) → days_in_month y m ≤ 31
unfolding days_in_month
days_in_month-le y m = ground arith

-- The ranges of the fields, as numbers.
record InRange (t : Datetime) : Type 0 where
  year_max : t.year < 10000
  month_min : 1 ≤ t.month
  month_max : t.month ≤ 12
  day_min : 1 ≤ t.day
  day_max : t.day ≤ 31
  hour_max : t.hour ≤ 23
  minute_max : t.minute ≤ 59
  second_max : t.second ≤ 59

is_datetime-InRange : (t : Datetime) → is_datetime t ≡ true → InRange t
unfolding is_datetime
is_datetime-InRange t h = record {
  year_max = ground arith;
  month_min = ground arith;
  month_max = ground arith;
  day_min = ground arith;
  day_max = ground (arith, days_in_month-le t.year t.month);
  hour_max = ground arith;
  minute_max = ground arith;
  second_max = ground arith;
}

-- The timestamp that BlueWeb prints for a valid datetime is parsed as that datetime.
pub strptime-csv_timestamp :
    (t : Datetime) → is_datetime t ≡ true → strptime (csv_timestamp t) ≡ some t
unfolding strptime expect at_end constructed
strptime-csv_timestamp t h =
    let r = is_datetime-InRange t h in
    rw
      (
        read_field-two_digits 1 12 t.month _ r.month_min r.month_max (omega arith),
        read_day-two_digits t.day _ r.day_min r.day_max,
        read_year-four_digits t.year _ r.year_max,
        skip_spaces-two_digits t.hour _ (omega arith),
        read_field-two_digits 0 23 t.hour _ (omega arith) r.hour_max (omega arith),
        read_field-two_digits 0 59 t.minute _ (omega arith) r.minute_max (omega arith),
        read_field-two_digits 0 61 t.second [] (omega arith) (omega arith) (omega arith),
      )
      (rw h)

digits_value : ℕ → Text → ℕ
digits_value acc [] = acc
digits_value acc (c ∷ t) = digits_value (acc * 10 + (c - 48)) t

digits_value-year_digits : (y : ℕ) → y < 10000 → digits_value 0 (year_digits y) ≡ y
unfolding digits_value year_digits
digits_value-year_digits y h = ground arith

lacks-year_digits : (sep y : ℕ) → sep < 48 → lacks sep (year_digits y) ≡ true
unfolding year_digits
lacks-year_digits sep y h = ground arith

two_digits_value : (n m : ℕ) → n / 10 ≡ m / 10 → n % 10 ≡ m % 10 → n ≡ m
two_digits_value n m p q = omega arith

lacks_bar-year_digits : (y : ℕ) → y < 10000 → lacks b'|' (year_digits y) ≡ true
unfolding year_digits
lacks_bar-year_digits y h = ground arith

-- Two valid datetimes with the same canonical timestamp are equal.
pub strftime_utc_injective :
    (t u : Datetime)
    → is_datetime t ≡ true
    → is_datetime u ≡ true
    → strftime_utc t ≡ strftime_utc u
    → t ≡ u
unfolding strftime_utc
strftime_utc_injective t u ht hu e =
    let q =
      split_at_sep b'-' (year_digits t.year) (year_digits u.year) _ _
        (lacks-year_digits b'-' t.year (omega arith)) (lacks-year_digits b'-' u.year (omega arith))
        e in
    let y : t.year ≡ u.year = cc (
      digits_value-year_digits t.year (is_datetime-InRange t ht).year_max,
      digits_value-year_digits u.year (is_datetime-InRange u hu).year_max,
      q.0,
    ) in
    ground (arith, y, q.1)

lacks-field : (c n : ℕ) → (c == b'|') ≡ false → n < 100 → lacks b'|' (c ∷ two_digits n) ≡ true
lacks-field c n p h = ground arith

-- The separator of the hash payload is no character of a canonical timestamp.
pub lacks_sep-strftime_utc :
    (t : Datetime) → is_datetime t ≡ true → lacks b'|' (strftime_utc t) ≡ true
unfolding strftime_utc
lacks_sep-strftime_utc t h =
    let r = is_datetime-InRange t h in
    let s5 : Text = (b':' ∷ two_digits t.second) ++ codes ".000Z" in
    let s4 : Text = (b':' ∷ two_digits t.minute) ++ s5 in
    let s3 : Text = (b'T' ∷ two_digits t.hour) ++ s4 in
    let s2 : Text = (b'-' ∷ two_digits t.day) ++ s3 in
    let s1 : Text = (b'-' ∷ two_digits t.month) ++ s2 in
    let h5 =
      lacks-append b'|' (b':' ∷ two_digits t.second) (codes ".000Z")
        (lacks-field b':' t.second refl (omega (arith, r.second_max))) refl in
    let h4 =
      lacks-append b'|' (b':' ∷ two_digits t.minute) s5
        (lacks-field b':' t.minute refl (omega (arith, r.minute_max))) h5 in
    let h3 =
      lacks-append b'|' (b'T' ∷ two_digits t.hour) s4
        (lacks-field b'T' t.hour refl (omega (arith, r.hour_max))) h4 in
    let h2 =
      lacks-append b'|' (b'-' ∷ two_digits t.day) s3
        (lacks-field b'-' t.day refl (omega (arith, r.day_max))) h3 in
    let h1 =
      lacks-append b'|' (b'-' ∷ two_digits t.month) s2
        (lacks-field b'-' t.month refl (omega (arith, r.month_max))) h2 in
    lacks-append b'|' (year_digits t.year) s1 (lacks_bar-year_digits t.year r.year_max) h1
