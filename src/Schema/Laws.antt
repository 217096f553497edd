-- ===== src/Schema/Laws.antt =====
-- bluewave/schema.py: a table without diffs.
use blue_waving.Base.{
  ◌≡◌, refl, ap, ◌≢◌, inl, inr, Bool, true, not, ◌||◌, Option, none, some, List, [], ◌∷◌, map,
  arith, Bool-cases, every, append-nil_both, Text, is_empty, text_eq_sound,
}
use blue_waving.Auth.{is_in, get_or_empty}
use blue_waving.ColumnTypes.{lower, types_match}
use blue_waving.Schema.{
  ColumnRow, ExpectedColumn, expected_columns, expected_charset, expected_collation, Diff, found,
  is_expected, diff_unless, is_text, charset_diffs, column_diffs, insert_name, unexpected_names,
  missing_diffs, missing_one, charset_differs, collation_differs, all_column_diffs,
  validate_columns, TableRow, validate_table_charset, checked, is_ok, validate, BootstrapError,
  bootstrap_and_validate, unexpected_column,
}

-- A column is as expected.
pub record Agrees (e : ExpectedColumn) (a : ColumnRow) : Type 0 where
  pub same_type : types_match e.column_type (lower a.column_type) ≡ true
  pub same_nullable : a.is_nullable ≡ e.is_nullable
  pub charset : e.has_charset ≡ true → a.character_set ≡ some expected_charset
  pub collated : e.has_charset ≡ true → a.collation ≡ some expected_collation
  pub has_extra : (is_empty e.extra || is_in e.extra (lower (get_or_empty a.extra))) ≡ true

abbrev pub AllAgree : List ColumnRow → List ExpectedColumn → Type 0
AllAgree rows [] = Unit
AllAgree rows (e ∷ es) =
    ((a : ColumnRow) × (found e.name rows ≡ some a) × Agrees e a) × AllAgree rows es

diff_unless-nil : (b : Bool) (d : Diff) → diff_unless b d ≡ [] → b ≡ true
unfolding diff_unless
diff_unless-nil b d e = ground (arith, e)

is_text_sound : (o : Option Text) (t : Text) → is_text o t ≡ true → o ≡ some t
unfolding is_text
is_text_sound none t h = cc h
is_text_sound (some s) t h = ap some (text_eq_sound s t h)

column_diffs-Agrees :
    (e : ExpectedColumn) (a : ColumnRow) → column_diffs e (some a) ≡ [] → Agrees e a
unfolding column_diffs charset_diffs
column_diffs-Agrees e a h =
    let (h1, r1) = append-nil_both _ _ h in
    let (h2, r2) = append-nil_both _ _ r1 in
    let (h3, h4) = append-nil_both _ _ r2 in
    let (h5, h6) = append-nil_both _ _ h3 in
    let cs =
      diff_unless-nil (not e.has_charset || is_text a.character_set expected_charset)
        (charset_differs e.name) h5 in
    let co =
      diff_unless-nil (not e.has_charset || is_text a.collation expected_collation)
        (collation_differs e.name) h6 in
    record {
      same_type = diff_unless-nil _ _ h1;
      same_nullable = text_eq_sound a.is_nullable e.is_nullable (diff_unless-nil _ _ h2);
      charset = λ c. is_text_sound a.character_set expected_charset (ground (arith, c, cs));
      collated = λ c. is_text_sound a.collation expected_collation (ground (arith, c, co));
      has_extra = diff_unless-nil _ _ h4;
    }

one-Agrees :
    (e : ExpectedColumn) (o : Option ColumnRow)
    → missing_one e o ≡ []
    → column_diffs e o ≡ []
    → (a : ColumnRow) × (o ≡ some a) × Agrees e a
unfolding missing_one
one-Agrees e none m h = cc m
one-Agrees e (some a) m h = (a, refl, column_diffs-Agrees e a h)

all_column_diffs-AllAgree :
    (rows : List ColumnRow) (es : List ExpectedColumn)
    → missing_diffs rows es ≡ []
    → all_column_diffs rows es ≡ []
    → AllAgree rows es
unfolding missing_diffs all_column_diffs
all_column_diffs-AllAgree rows [] m h = tt
all_column_diffs-AllAgree rows (e ∷ es) m h =
    let (m1, m2) = append-nil_both (missing_one e (found e.name rows)) _ m in
    let (h1, h2) = append-nil_both (column_diffs e (found e.name rows)) _ h in
    (one-Agrees e (found e.name rows) m1 h1, all_column_diffs-AllAgree rows es m2 h2)

insert_name_some : (n : Text) (ns : List Text) → insert_name n ns ≢ []
unfolding insert_name
insert_name_some n [] e = cc
insert_name_some n (m ∷ ms) e = ground (arith, e)

unexpected_names-nil :
    (rows : List ColumnRow)
    → unexpected_names rows ≡ []
    → every (λ r. is_expected r.name) rows ≡ true
unfolding unexpected_names
unexpected_names-nil [] e = refl
unexpected_names-nil (r ∷ rows) e = elim (Bool-cases (is_expected r.name)) [
  | inl known ↦ rw known (unexpected_names-nil rows (rw known at e))
  | inr strange ↦ absurd (insert_name_some r.name (unexpected_names rows) (rw strange at e))
]

-- The columns of a table are the expected ones.
pub record Conforms (rows : List ColumnRow) : Type 0 where
  pub none_else : every (λ r. is_expected r.name) rows ≡ true
  pub all_agree : AllAgree rows expected_columns

map-nil : (ns : List Text) → map unexpected_column ns ≡ [] → ns ≡ []
map-nil [] e = refl
map-nil (n ∷ ns) e = cc

-- If validate_columns reports nothing, every column is an expected one, and each expected column
-- is there with its type, nullability, character set, collation and extra.
pub validate_columns-Conforms : (rows : List ColumnRow) → validate_columns rows ≡ [] → Conforms rows
unfolding validate_columns
validate_columns-Conforms rows e =
    let (missing, rest) = append-nil_both _ _ e in
    let (strange, differing) = append-nil_both _ _ rest in
    record {
      none_else = unexpected_names-nil rows (map-nil (unexpected_names rows) strange);
      all_agree = all_column_diffs-AllAgree rows expected_columns missing differing;
    }

-- What `ok` of bootstrap_and_validate promises of the server's answers.
pub record Usable (failed : Option BootstrapError)
    (answer : Option (List ColumnRow × Option TableRow)) : Type 0 where
  pub rows : List ColumnRow
  pub table : TableRow
  pub created : failed ≡ none
  pub answered : answer ≡ some (rows, some table)
  pub charset : table.character_set ≡ some expected_charset
  pub collated : table.collation ≡ some expected_collation
  pub conforms : Conforms rows

is_ok-checked : (ds : List Diff) → is_ok (checked ds) ≡ true → ds ≡ []
unfolding is_ok
is_ok-checked [] h = refl
is_ok-checked (d ∷ ds) h = cc

-- If bootstrap_and_validate is ok, the statements have run, the queries were answered, the table
-- is there in utf8mb4 with the pinned collation, and its columns are the expected ones.
pub bootstrap_and_validate-Usable :
    (failed : Option BootstrapError) (answer : Option (List ColumnRow × Option TableRow))
    → (bootstrap_and_validate failed (validate answer)).is_bootstrapped ≡ true
    → Usable failed answer
unfolding bootstrap_and_validate validate validate_table_charset is_ok
bootstrap_and_validate-Usable (some e) answer h = cc h
bootstrap_and_validate-Usable none none h = cc h
bootstrap_and_validate-Usable none (some (rows, none)) h = cc h
bootstrap_and_validate-Usable none (some (rows, some t)) h =
    let (table, columns) =
      append-nil_both (validate_table_charset (some t)) (validate_columns rows)
        (is_ok-checked _ h) in
    let (cs, co) = append-nil_both _ _ table in
    record {
      rows = rows;
      table = t;
      created = refl;
      answered = refl;
      charset = is_text_sound t.character_set expected_charset (diff_unless-nil _ _ cs);
      collated = is_text_sound t.collation expected_collation (diff_unless-nil _ _ co);
      conforms = validate_columns-Conforms rows columns;
    }
