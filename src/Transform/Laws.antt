-- ===== src/Transform/Laws.antt =====
-- bluewave/transform.py: what transform accepts, and what it raises.
use blue_waving.Base.{
  ◌≡◌, refl, sym, ap, ◌∙◌, inl, inr, true, false, ◌||◌, Option, none, some, List, [], ◌∷◌, arith,
  Bool-cases, Text, is_empty, strip, text_eq_sound, ok, bind-eq-ok,
}
use blue_waving.Exceptions.{Exn}
use blue_waving.Datetime.{Datetime, strptime}
use blue_waving.Row.{Row}
use mathlib.Core.Path.{subst}
use blue_waving.Transform.{
  or_malformed, expected_header, Zone, parse_naive_local, localize_to_utc, same_datetime, RawRow,
  row_from_csv, raw_row, rows_of, with_header, transform, same_fields, CsvFile, unless_raised,
  build_row, row_of, hash_input,
}

same_datetime_sound : (t u : Datetime) → same_datetime t u ≡ true → t ≡ u
unfolding same_datetime
same_datetime_sound t u h = ground arith

-- An accepted local time has a known offset, is converted as the zone says, and the zone converts the
-- result back to it.
localize_to_utc-eq-ok :
    (tz : Zone) (naive u : Datetime)
    → localize_to_utc tz naive ≡ ok u
    → (tz.has_no_dst naive ≡ false) × (u ≡ tz.to_utc naive) × (tz.from_utc u ≡ naive)
unfolding localize_to_utc
localize_to_utc-eq-ok tz naive u h =
    let e : u ≡ tz.to_utc naive = ground arith in
    (ground arith, e, rw e (same_datetime_sound _ naive (unfold same_datetime in ground arith)))

or_malformed-eq-ok : {A : Type 0} (o : Option A) (a : A) → or_malformed o ≡ ok a → o ≡ some a
unfolding or_malformed
or_malformed-eq-ok none a e = cc
or_malformed-eq-ok (some b) a e = cc

-- The rows are those of the records, one for one and in their order.
abbrev pub RowsMatch : (Text → Text) → Zone → Text → List (List Text) → List Row → Type 0
RowsMatch sha tz source [] [] = Unit
RowsMatch sha tz source [] (r ∷ rows) = ⊥
RowsMatch sha tz source (fields ∷ records) [] = ⊥
RowsMatch sha tz source (fields ∷ records) (r ∷ rows) =
    ((raw : RawRow) × (raw_row fields ≡ ok raw) × (row_from_csv sha tz source raw ≡ ok r))
    × RowsMatch sha tz source records rows

pub rows_of-RowsMatch :
    (sha : Text → Text) (tz : Zone) (source : Text) (broken : Option Exn)
    (records : List (List Text)) (rows : List Row)
    → rows_of sha tz source broken records ≡ ok rows
    → RowsMatch sha tz source records rows × (broken ≡ none)
unfolding rows_of
rows_of-RowsMatch sha tz source none [] [] e = (tt, refl)
rows_of-RowsMatch sha tz source none [] (r ∷ rows) e = unfold unless_raised in cc
rows_of-RowsMatch sha tz source (some x) [] rows e = unfold unless_raised in cc
rows_of-RowsMatch sha tz source broken (fields ∷ records) rows e =
    let (raw, p, q) = bind-eq-ok (raw_row fields) _ e in
    let (r, p', q') = bind-eq-ok (row_from_csv sha tz source raw) _ q in
    let (rest, p'', q'') = bind-eq-ok (rows_of sha tz source broken records) _ q' in
    let same : r ∷ rest ≡ rows = cc q'' in
    let (matched, whole) = rows_of-RowsMatch sha tz source broken records rest p'' in
    (subst (RowsMatch sha tz source (fields ∷ records)) same ((raw, p, p'), matched), whole)

same_fields_sound : (ss ts : List Text) → same_fields ss ts ≡ true → ss ≡ ts
unfolding same_fields
same_fields_sound [] [] h = refl
same_fields_sound [] (t ∷ ts) h = cc
same_fields_sound (s ∷ ss) [] h = cc
same_fields_sound (s ∷ ss) (t ∷ ts) h = ground (arith, same_fields_sound ss ts, text_eq_sound s t)

with_header-eq-ok :
    (sha : Text → Text) (tz : Zone) (source : Text) (broken : Option Exn) (csv : List (List Text))
    (rows : List Row)
    → with_header sha tz source broken csv ≡ ok rows
    → (records : List (List Text)) × (csv ≡ expected_header ∷ records)
      × (broken ≡ none)
      × RowsMatch sha tz source records rows
unfolding with_header
with_header-eq-ok sha tz source none [] rows e = unfold unless_raised in cc
with_header-eq-ok sha tz source (some x) [] rows e = unfold unless_raised in cc
with_header-eq-ok sha tz source broken (header ∷ records) rows e =
    elim (Bool-cases (same_fields header expected_header)) [
      | inl same ↦
          (let (matched, whole) =
              rows_of-RowsMatch sha tz source broken records rows (rw same at e) in
            (
              records,
              ap (λ h. h ∷ records) (same_fields_sound header expected_header same),
              whole,
              matched,
            ))
      | inr differ ↦ cc (rw differ at e)
    ]

unless_raised-eq-ok : (o : Option Exn) (u : Unit {0}) → unless_raised o ≡ ok u → o ≡ none
unfolding unless_raised
unless_raised-eq-ok none u e = refl
unless_raised-eq-ok (some x) u e = cc

-- If transform returns rows, the zone is known, the file was opened and read to its end, it has
-- the expected header, and the rows are those of its records, each transformed in that zone, one
-- for one and in order.
pub transform-eq-ok :
    (sha : Text → Text) (zone_of : Text → Option Zone) (source : Text) (timezone : Text)
    (csv : CsvFile) (rows : List Row)
    → transform sha zone_of source timezone csv ≡ ok rows
    → (tz : Zone) × (zone_of timezone ≡ some tz)
      × (csv.refused ≡ none)
      × (csv.broken ≡ none)
      × (records : List (List Text)) × (csv.records ≡ expected_header ∷ records)
      × RowsMatch sha tz source records rows
unfolding transform
transform-eq-ok sha zone_of source timezone csv rows e =
    let (tz, found, e') = bind-eq-ok (or_malformed (zone_of timezone)) _ e in
    let (u, opened, e'') = bind-eq-ok (unless_raised csv.refused) _ e' in
    let (records, header, whole, matched) =
      with_header-eq-ok sha tz source csv.broken csv.records rows e'' in
    (
      tz,
      or_malformed-eq-ok (zone_of timezone) tz found,
      unless_raised-eq-ok csv.refused u opened,
      whole,
      records,
      header,
      matched,
    )

build_row-timestamp :
    (sha : Text → Text) (source : Text) (raw : RawRow) (u : Datetime) (r : Row)
    → build_row sha source raw u ≡ ok r
    → r.timestamp ≡ u
unfolding build_row row_of hash_input
build_row-timestamp sha source raw u r e =
    elim (Bool-cases (is_empty (strip raw.description) || is_empty (strip raw.door_name))) [
      | inl blank ↦ cc (rw blank at e)
      | inr filled ↦
          (let v : row_of sha (hash_input source u raw) ≡ r = cc (rw filled at e) in
            sym (ap (λ (x : Row). x.timestamp) v))
    ]

-- The record has a Date/Time that parses, with a known offset in the zone; the timestamp of the row is
-- what the zone converts it to, and the zone converts the timestamp back to it.
abbrev pub SameTime : Zone → List Text → Row → Type 0
SameTime tz fields r =
    (raw : RawRow) × (raw_row fields ≡ ok raw)
    × (naive : Datetime) × (strptime raw.date_time ≡ some naive)
    × (tz.has_no_dst naive ≡ false)
    × (r.timestamp ≡ tz.to_utc naive)
    × (tz.from_utc r.timestamp ≡ naive)

abbrev pub SameTimes : Zone → List (List Text) → List Row → Type 0
SameTimes tz [] [] = Unit
SameTimes tz [] (r ∷ rows) = ⊥
SameTimes tz (fields ∷ records) [] = ⊥
SameTimes tz (fields ∷ records) (r ∷ rows) = SameTime tz fields r × SameTimes tz records rows

row_from_csv-SameTime :
    (sha : Text → Text) (tz : Zone) (source : Text) (fields : List Text) (raw : RawRow) (r : Row)
    → raw_row fields ≡ ok raw
    → row_from_csv sha tz source raw ≡ ok r
    → SameTime tz fields r
unfolding row_from_csv parse_naive_local
row_from_csv-SameTime sha tz source fields raw r fits e =
    let (naive, parsed, e') = bind-eq-ok (parse_naive_local raw.date_time) _ e in
    let (u, local, e'') = bind-eq-ok (localize_to_utc tz naive) _ e' in
    let stamp = build_row-timestamp sha source raw u r e'' in
    let (known, there, back) = localize_to_utc-eq-ok tz naive u local in
    (
      raw,
      fits,
      naive,
      or_malformed-eq-ok (strptime raw.date_time) naive parsed,
      known,
      stamp ∙ there,
      ap tz.from_utc stamp ∙ back,
    )

RowsMatch-SameTimes :
    (sha : Text → Text) (tz : Zone) (source : Text) (records : List (List Text)) (rows : List Row)
    → RowsMatch sha tz source records rows
    → SameTimes tz records rows
RowsMatch-SameTimes sha tz source [] [] m = tt
RowsMatch-SameTimes sha tz source [] (r ∷ rows) m = m
RowsMatch-SameTimes sha tz source (fields ∷ records) [] m = m
RowsMatch-SameTimes sha tz source (fields ∷ records) (r ∷ rows) ((raw, fits, e), m) = (
  row_from_csv-SameTime sha tz source fields raw r fits e,
  RowsMatch-SameTimes sha tz source records rows m,
)

-- If transform returns rows, then in the zone of the operator the timestamp of each row reads
-- exactly as the Date/Time of its record does, record for record: that one parses, has a known
-- offset in the zone, and was converted to UTC as the zone says.
pub transform-SameTimes :
    (sha : Text → Text) (zone_of : Text → Option Zone) (source : Text) (timezone : Text)
    (csv : CsvFile) (rows : List Row)
    → transform sha zone_of source timezone csv ≡ ok rows
    → (tz : Zone) × (zone_of timezone ≡ some tz)
      × (records : List (List Text)) × (csv.records ≡ expected_header ∷ records)
      × SameTimes tz records rows
transform-SameTimes sha zone_of source timezone csv rows e =
    let (tz, found, opened, whole, records, header, matched) =
      transform-eq-ok sha zone_of source timezone csv rows e in
    (tz, found, records, header, RowsMatch-SameTimes sha tz source records rows matched)
