-- ===== src/Schema/Creation.antt =====
-- bluewave/schema.py: the tables that bootstrap creates, against the columns that validate expects.
use blue_waving.Schema.{
  validate_columns, all_column_diffs, missing_one, missing_diffs, diff_unless, charset_diffs,
  column_diffs, expected_collation, unexpected_names, is_text, found, expected_charset,
  expected_columns, ColumnRow, is_expected, ExpectedColumn,
}
use blue_waving.Auth.{get_or_empty, is_in, starts_with}
use blue_waving.Sink.Laws.{text_eq_sym}
use blue_waving.Schema.Tables.{ddl_audit_logs, TableDef, Server, ColumnDef}
use blue_waving.Base.{
  ◌≡◌, refl, ap, ◌∙◌, ◌⊎◌, inl, inr, Bool, true, false, not, ◌&&◌, ◌||◌, Option, none, some, List,
  [], ◌∷◌, map, arith, if◌then◌else◌, Bool-cases, every, Text, codes, text_eq, is_empty, strip,
  text_eq_sound, text_eq_refl,
}
use blue_waving.ColumnTypes.{lower, types_match}

-- How a server shows the type of a column: in small letters, or with a width or an alias.
abbrev pub ShownAs : Text → Text → Type 0
ShownAs t s =
    (s ≡ lower t)
    ⊎ ((t ≡ codes "BIGINT UNSIGNED") × (s ≡ codes "bigint(20) unsigned"))
    ⊎ ((t ≡ codes "JSON") × (s ≡ codes "longtext"))

abbrev pub is_string_type : Text → Bool
is_string_type t = starts_with (codes "VARCHAR(") t || starts_with (codes "CHAR(") t

abbrev pub nullable_of : ColumnDef → Text
nullable_of d = if d.not_null then codes "NO" else codes "YES"

-- A server shows a column of a table as MySQL and MariaDB document it.
pub record ShowsColumn (t : TableDef) (d : ColumnDef) (r : ColumnRow) : Type 0 where
  pub same_name : r.name ≡ d.name
  pub shown_type : ShownAs d.column_type r.column_type
  pub nullable : r.is_nullable ≡ nullable_of d
  pub in_charset : is_string_type d.column_type ≡ true → r.character_set ≡ some t.charset
  pub in_collation : is_string_type d.column_type ≡ true → r.collation ≡ some t.collate
  pub counts : d.auto_increment ≡ true → r.extra ≡ some (codes "auto_increment")

pub record ShowsTables (s : Server) : Type 0 where
  pub column_shown : (t : TableDef) (d : ColumnDef) → ShowsColumn t d (s.shows_column t d)
  pub table_charset : (t : TableDef) → (s.shows_table t).character_set ≡ some t.charset
  pub table_collation : (t : TableDef) → (s.shows_table t).collation ≡ some t.collate

-- The definition that a CREATE TABLE gives for a name.
find_column : Text → List ColumnDef → Option ColumnDef
find_column name [] = none
find_column name (d ∷ ds) = elim (find_column name ds) [
  | some e ↦ some e
  | none ↦ if text_eq d.name name then some d else none
]

-- A definition gives what is expected of a column.
declares : ExpectedColumn → Option ColumnDef → Bool
declares e none = false
declares e (some d) =
    text_eq e.column_type (lower d.column_type)
    && (types_match e.column_type (lower (lower d.column_type))
        && (text_eq e.is_nullable (nullable_of d)
            && ((not e.has_charset || is_string_type d.column_type)
                && (is_empty e.extra
                    || (text_eq e.extra (codes "auto_increment") && d.auto_increment)))))

ddl_declares :
    every
      (λ (e : ExpectedColumn). declares e (find_column e.name ddl_audit_logs.columns))
      expected_columns
    ≡ true
unfolding find_column declares starts_with strip lower types_match
ddl_declares = refl

ddl_is_expected : every (λ (d : ColumnDef). is_expected d.name) ddl_audit_logs.columns ≡ true
unfolding is_expected
ddl_is_expected = refl

shown_type_matches :
    (e t s : Text)
    → e ≡ lower t
    → types_match e (lower (lower t)) ≡ true
    → ShownAs t s
    → types_match e (lower s) ≡ true
unfolding strip starts_with
shown_type_matches e t s same plain (inl small) = rw small plain
shown_type_matches e t s same plain (inr (inl (big, wide))) =
    rw (same, big, wide) (unfold lower types_match in refl)
shown_type_matches e t s same plain (inr (inr (json, alias))) =
    rw (same, json, alias) (unfold lower types_match in refl)

and_parts : (a b : Bool) → (a && b) ≡ true → (a ≡ true) × (b ≡ true)
and_parts a b h = (ground (arith, h), ground (arith, h))

abbrev shown_option : (ColumnDef → ColumnRow) → Option ColumnDef → Option ColumnRow
shown_option f none = none
shown_option f (some d) = some (f d)

module _ (f : ColumnDef → ColumnRow) (same : (d : ColumnDef) → (f d).name ≡ d.name) where
  found-map :
      (name : Text) (ds : List ColumnDef)
      → found name (map f ds) ≡ shown_option f (find_column name ds)
  unfolding found find_column
  found-map name [] = refl
  found-map name (d ∷ ds) = rw (found-map name ds) (go (find_column name ds))
    where
      go :
          (o : Option ColumnDef)
          → (elim (shown_option f o) [
            | some s ↦ some s
            | none ↦ if text_eq (f d).name name then some (f d) else none
          ])
            ≡ shown_option f
                (elim o [ some e ↦ some e | none ↦ if text_eq d.name name then some d else none ])
      go (some e) = refl
      go none = ground (arith, ap (λ n. text_eq n name) (same d))

  unexpected_names-map :
      (ds : List ColumnDef)
      → every (λ (d : ColumnDef). is_expected d.name) ds ≡ true
      → unexpected_names (map f ds) ≡ []
  unfolding unexpected_names
  unexpected_names-map [] h = refl
  unexpected_names-map (d ∷ ds) h =
      let (known, others) =
        and_parts (is_expected d.name) (every (λ (x : ColumnDef). is_expected x.name) ds) h in
      rw (same d, known) (unexpected_names-map ds others)

is_text_refl : (o : Option Text) (t : Text) → o ≡ some t → is_text o t ≡ true
unfolding is_text
is_text_refl o t e = rw (e, is_text) (text_eq_refl t)

module _ (t : TableDef) (utf8 : t.charset ≡ expected_charset)
    (pinned : t.collate ≡ expected_collation) (f : ColumnDef → ColumnRow)
    (shown : (d : ColumnDef) → ShowsColumn t d (f d)) where
  charset_diffs-declared :
      (e : ExpectedColumn) (d : ColumnDef)
      → (not e.has_charset || is_string_type d.column_type) ≡ true
      → charset_diffs e (f d) ≡ []
  unfolding charset_diffs diff_unless
  charset_diffs-declared e d h = elim (Bool-cases e.has_charset) [
    | inr free ↦ rw free refl
    | inl needs ↦
        let string : is_string_type d.column_type ≡ true = rw needs at h in
        let cs = is_text_refl _ _ ((shown d).in_charset string ∙ ap some utf8) in
        let co = is_text_refl _ _ ((shown d).in_collation string ∙ ap some pinned) in
        ground (arith, cs, co)
  ]

  extra_shown :
      (e : ExpectedColumn) (d : ColumnDef)
      → (is_empty e.extra || (text_eq e.extra (codes "auto_increment") && d.auto_increment)) ≡ true
      → (is_empty e.extra || is_in e.extra (lower (get_or_empty (f d).extra))) ≡ true
  extra_shown e d h = elim (Bool-cases (is_empty e.extra)) [
    | inl free ↦ rw free refl
    | inr needs ↦
        let (same, counts) = and_parts _ _ (rw needs at h) in
        let named = text_eq_sound e.extra (codes "auto_increment") same in
        rw (named, (shown d).counts counts) (unfold is_in lower get_or_empty starts_with in refl)
  ]

  column_diffs-declared :
      (e : ExpectedColumn) (d : ColumnDef)
      → declares e (some d) ≡ true
      → column_diffs e (some (f d)) ≡ []
  unfolding column_diffs diff_unless declares
  column_diffs-declared e d h =
      let (type_same, r1) = and_parts _ _ h in
      let (plain, r2) = and_parts _ _ r1 in
      let (null_same, r3) = and_parts _ _ r2 in
      let (charset, extra) = and_parts _ _ r3 in
      let typed =
        shown_type_matches e.column_type d.column_type (f d).column_type
          (text_eq_sound _ _ type_same) plain (shown d).shown_type in
      let null : text_eq (f d).is_nullable e.is_nullable ≡ true =
        rw ((shown d).nullable) (text_eq_sym (nullable_of d) e.is_nullable ∙ null_same) in
      rw (typed, null, charset_diffs-declared e d charset, extra_shown e d extra) refl

  missing_one-declared :
      (e : ExpectedColumn) (o : Option ColumnDef)
      → declares e o ≡ true
      → (missing_one e (shown_option f o) ≡ []) × (column_diffs e (shown_option f o) ≡ [])
  missing_one-declared e none h = unfold declares in cc h
  missing_one-declared e (some d) h = (unfold missing_one in refl, column_diffs-declared e d h)

  all_diffs-declared :
      (es : List ExpectedColumn) (ds : List ColumnDef)
      → every (λ (e : ExpectedColumn). declares e (find_column e.name ds)) es ≡ true
      → (missing_diffs (map f ds) es ≡ []) × (all_column_diffs (map f ds) es ≡ [])
  unfolding missing_diffs all_column_diffs
  all_diffs-declared [] ds h = (refl, refl)
  all_diffs-declared (e ∷ es) ds h =
      let (first, others) = and_parts _ _ h in
      let (m, c) = missing_one-declared e (find_column e.name ds) first in
      let (ms, cs) = all_diffs-declared es ds others in
      let there = found-map f (λ d. (shown d).same_name) e.name ds in
      (rw (there, m) ms, rw (there, c) cs)

-- A column as this server shows it agrees with what validate expects, for each column that the
-- statement gives.
pub validate_columns-ddl :
    (s : Server)
    → ShowsTables s
    → validate_columns (map (s.shows_column ddl_audit_logs) ddl_audit_logs.columns) ≡ []
unfolding validate_columns
validate_columns-ddl s shows =
    let f = s.shows_column ddl_audit_logs in
    let (missing, differing) =
      all_diffs-declared ddl_audit_logs refl refl f (shows.column_shown ddl_audit_logs)
        expected_columns ddl_audit_logs.columns ddl_declares in
    let strange =
      unexpected_names-map f (λ d. (shows.column_shown ddl_audit_logs d).same_name)
        ddl_audit_logs.columns ddl_is_expected in
    rw (missing, strange, differing) refl
