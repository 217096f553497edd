-- ===== src/Transform.antt =====
-- bluewave/transform.py: from the records of the CSV to the rows of the sink. The records are those
-- that `csv.reader` gives. The timezone database, SHA-256 and what reading the file gives are
-- parameters.
pub mod Laws
use blue_waving.Base.{
  ◌/◌, Bool, true, false, not, ◌&&◌, ◌||◌, Option, none, some, List, [], ◌∷◌, ◌==◌, if◌then◌else◌,
  Text, codes, text_eq, is_empty, strip, Result, ok, err, ◌>>=◌,
}
use blue_waving.Exceptions.{Exn, failure, malformed_csv}
use blue_waving.Datetime.{Datetime, strptime}
use blue_waving.Dedup.{canonical_extra_data, HashInput, dedup_hash}
use blue_waving.Row.{Row}

-- What a ZoneInfo says of local datetimes, at fold 0.
pub record Zone : Type 0 where
  -- `localized.dst()` is None
  pub has_no_dst : Datetime → Bool
  -- `localized.astimezone(timezone.utc)`
  pub to_utc : Datetime → Datetime
  -- `utc.astimezone(tz).replace(tzinfo=None)`
  pub from_utc : Datetime → Datetime

abbrev pub expected_header : List Text
expected_header =
    codes "Date/Time"
    ∷ codes "Door Name"
    ∷ codes "Description"
    ∷ codes "Person"
    ∷ codes "Employee ID"
    ∷ codes "Card Number"
    ∷ codes "Facility Code"
    ∷ codes "Pin"
    ∷ []

unfoldable pub strip_or_none : Text → Option Text
strip_or_none value = let s = strip value in if is_empty s then none else some s

-- The `raise MalformedCsvError` of a handler.
unfoldable pub or_malformed : {A : Type 0} → Option A → Result Exn A
or_malformed none = err (failure malformed_csv)
or_malformed (some a) = ok a

unfoldable pub parse_naive_local : Text → Result Exn Datetime
unfolding or_malformed
parse_naive_local value = or_malformed (strptime value)

-- `==` of two datetimes
unfoldable pub same_datetime : Datetime → Datetime → Bool
same_datetime t u =
    (t.year == u.year)
    && ((t.month == u.month)
        && ((t.day == u.day)
            && ((t.hour == u.hour) && ((t.minute == u.minute) && (t.second == u.second)))))

unfoldable pub localize_to_utc : Zone → Datetime → Result Exn Datetime
unfolding same_datetime
localize_to_utc tz naive =
    if tz.has_no_dst naive
    then err (failure malformed_csv)
    else if not (same_datetime (tz.from_utc (tz.to_utc naive)) naive)
    then err (failure malformed_csv)
    else ok (tz.to_utc naive)

-- `dict(zip(EXPECTED_HEADER, fields))`
pub record RawRow : Type 0 where
  pub date_time : Text
  pub door_name : Text
  pub description : Text
  pub person : Text
  pub employee_id : Text
  pub card_number : Text
  pub facility_code : Text
  pub pin : Text

unfoldable pub hash_input : Text → Datetime → RawRow → HashInput
unfolding strip_or_none
hash_input source ts_utc raw = record {
  source = source;
  timestamp_utc = ts_utc;
  operation = strip raw.description;
  instance_name = strip raw.door_name;
  user_id = strip_or_none raw.employee_id;
  user_name = strip_or_none raw.person;
  extra_data_str =
      canonical_extra_data (strip_or_none raw.card_number) (strip_or_none raw.facility_code);
}

unfoldable pub row_of : (Text → Text) → HashInput → Row
row_of sha256_hex i = record {
  timestamp = i.timestamp_utc;
  source = i.source;
  operation = i.operation;
  instance_name = i.instance_name;
  user_name = i.user_name;
  user_id = i.user_id;
  extra_data_str = i.extra_data_str;
  dedup_hash = dedup_hash sha256_hex i;
}

unfoldable pub build_row : (Text → Text) → Text → RawRow → Datetime → Result Exn Row
unfolding hash_input row_of
build_row sha256_hex source raw ts_utc =
    if is_empty (strip raw.description) || is_empty (strip raw.door_name)
    then err (failure malformed_csv)
    else ok (row_of sha256_hex (hash_input source ts_utc raw))

unfoldable pub row_from_csv : (Text → Text) → Zone → Text → RawRow → Result Exn Row
unfolding parse_naive_local localize_to_utc build_row
row_from_csv sha256_hex tz source raw = do
  naive ← parse_naive_local raw.date_time
  ts_utc ← localize_to_utc tz naive
  build_row sha256_hex source raw ts_utc

-- The test on the number of fields, and the dict.
unfoldable pub raw_row : List Text → Result Exn RawRow
raw_row (a ∷ b ∷ c ∷ d ∷ e ∷ f ∷ g ∷ h ∷ []) = ok (record {
  date_time = a;
  door_name = b;
  description = c;
  person = d;
  employee_id = e;
  card_number = f;
  facility_code = g;
  pin = h;
})
raw_row _ = err (failure malformed_csv)

unfoldable pub same_fields : List Text → List Text → Bool
same_fields [] [] = true
same_fields (s ∷ ss) (t ∷ ts) = text_eq s t && same_fields ss ts
same_fields _ _ = false

-- What opening the file and reading it give: what `open` raises, if it does; the records one after the
-- other; and what the reader raises behind the last of them, if it is not the end of the file: an
-- OSError, a UnicodeDecodeError or a csv.Error.
pub record CsvFile : Type 0 where
  pub refused : Option Exn
  pub records : List (List Text)
  pub broken : Option Exn

unfoldable pub unless_raised : Option Exn → Result Exn (Unit {0})
unless_raised none = ok tt
unless_raised (some e) = err e

-- The loop over the records behind the header, each read when the one before it is a row.
unfoldable pub rows_of :
    (Text → Text) → Zone → Text → Option Exn → List (List Text) → Result Exn (List Row)
unfolding row_from_csv raw_row unless_raised
rows_of sha256_hex tz source broken [] = do u ← unless_raised broken; ok []
rows_of sha256_hex tz source broken (fields ∷ records) = do
  raw ← raw_row fields
  r ← row_from_csv sha256_hex tz source raw
  rows ← rows_of sha256_hex tz source broken records
  ok (r ∷ rows)

unfoldable pub with_header :
    (Text → Text) → Zone → Text → Option Exn → List (List Text) → Result Exn (List Row)
unfolding same_fields rows_of unless_raised
with_header sha256_hex tz source broken [] = do
  u ← unless_raised broken
  err (failure malformed_csv)
with_header sha256_hex tz source broken (header ∷ records) =
    if not (same_fields header expected_header)
    then err (failure malformed_csv)
    else rows_of sha256_hex tz source broken records

-- `zone_of` looks an IANA name up.
unfoldable pub transform :
    (Text → Text) → (Text → Option Zone) → Text → Text → CsvFile → Result Exn (List Row)
unfolding with_header or_malformed unless_raised
transform sha256_hex zone_of source timezone csv = do
  tz ← or_malformed (zone_of timezone)
  u ← unless_raised csv.refused
  with_header sha256_hex tz source csv.broken csv.records
