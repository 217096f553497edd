-- ===== src/Schema.antt =====
-- bluewave/schema.py: the check of the audit table against the expected columns. Letters are lowered
-- and digits read in ASCII. The server's answers are parameters; texts of diffs are not modelled.
pub mod Laws
pub mod Tables
pub mod Creation
pub mod Bootstrap
use blue_waving.ColumnTypes.{lower, types_match}
use blue_waving.Base.{
  ℕ, ◌+◌, String, Bool, true, false, not, ◌&&◌, ◌||◌, Option, none, some, List, [], ◌∷◌, ◌++◌, map,
  ltb, ◌==◌, if◌then◌else◌, any, Text, codes, text_eq, is_empty,
}
use blue_waving.Auth.{is_in, get_or_empty}

-- A row of information_schema.COLUMNS.
pub record ColumnRow : Type 0 where
  pub name : Text
  pub column_type : Text
  pub is_nullable : Text
  pub character_set : Option Text
  pub collation : Option Text
  pub extra : Option Text

pub record ExpectedColumn : Type 0 where
  pub name : Text
  pub column_type : Text
  pub is_nullable : Text
  pub has_charset : Bool
  pub extra : Text

abbrev pub column : String → String → String → Bool → String → ExpectedColumn
column name column_type is_nullable has_charset extra = record {
  name = codes name;
  column_type = codes column_type;
  is_nullable = codes is_nullable;
  has_charset = has_charset;
  extra = codes extra;
}

-- EXPECTED_COLUMNS_AUDIT_LOGS, sorted by name as the check goes through it
abbrev pub expected_columns : List ExpectedColumn
expected_columns =
    column "comments" "varchar(1024)" "YES" true ""
    ∷ column "dedup_hash" "char(64)" "NO" true ""
    ∷ column "extra_data" "json" "YES" false ""
    ∷ column "id" "bigint unsigned" "NO" false "auto_increment"
    ∷ column "ingest_run_id" "bigint unsigned" "YES" false ""
    ∷ column "ingested_at" "datetime(3)" "NO" false ""
    ∷ column "instance" "varchar(128)" "NO" true ""
    ∷ column "operation" "varchar(128)" "NO" true ""
    ∷ column "source" "varchar(64)" "NO" true ""
    ∷ column "timestamp" "datetime(3)" "NO" false ""
    ∷ column "user_id" "varchar(64)" "YES" true ""
    ∷ column "user_name" "varchar(256)" "YES" true ""
    ∷ []

abbrev pub expected_charset : Text
expected_charset = codes "utf8mb4"

abbrev pub expected_collation : Text
expected_collation = codes "utf8mb4_unicode_ci"

pub data Diff : Type 0 where
  missing_column unexpected_column type_differs nullable_differs : Text → Diff
  charset_differs collation_differs extra_differs : Text → Diff
  no_table table_charset_differs table_collation_differs : Diff

-- `found[name]`: a later row of a name replaces an earlier one.
unfoldable pub found : Text → List ColumnRow → Option ColumnRow
found name [] = none
found name (r ∷ rs) = elim (found name rs) [
  | some s ↦ some s
  | none ↦ if text_eq r.name name then some r else none
]

unfoldable pub is_expected : Text → Bool
is_expected name = any (λ (e : ExpectedColumn). text_eq e.name name) expected_columns

unfoldable pub diff_unless : Bool → Diff → List Diff
diff_unless b d = if b then [] else d ∷ []

-- `cs != EXPECTED_CHARSET`, where cs may be None
unfoldable pub is_text : Option Text → Text → Bool
is_text none t = false
is_text (some s) t = text_eq s t

unfoldable pub charset_diffs : ExpectedColumn → ColumnRow → List Diff
unfolding diff_unless is_text
charset_diffs e a =
    diff_unless (not e.has_charset || is_text a.character_set expected_charset)
      (charset_differs e.name)
    ++ diff_unless (not e.has_charset || is_text a.collation expected_collation)
        (collation_differs e.name)

unfoldable pub column_diffs : ExpectedColumn → Option ColumnRow → List Diff
unfolding diff_unless charset_diffs types_match lower
column_diffs e none = []
column_diffs e (some a) =
    diff_unless (types_match e.column_type (lower a.column_type)) (type_differs e.name)
    ++ (diff_unless (text_eq a.is_nullable e.is_nullable) (nullable_differs e.name)
        ++ (charset_diffs e a
            ++ diff_unless (is_empty e.extra || is_in e.extra (lower (get_or_empty a.extra)))
                (extra_differs e.name)))

unfoldable pub text_leb : Text → Text → Bool
text_leb [] t = true
text_leb (c ∷ s) [] = false
text_leb (c ∷ s) (d ∷ t) = ltb c d || ((c == d) && text_leb s t)

-- `sorted` of a set: a name goes in once.
unfoldable pub insert_name : Text → List Text → List Text
unfolding text_leb
insert_name n [] = n ∷ []
insert_name n (m ∷ ms) =
    let rest = insert_name n ms in
    if text_eq n m then m ∷ ms else if text_leb n m then n ∷ m ∷ ms else m ∷ rest

unfoldable pub unexpected_names : List ColumnRow → List Text
unfolding insert_name is_expected
unexpected_names [] = []
unexpected_names (r ∷ rs) =
    let rest = unexpected_names rs in if is_expected r.name then rest else insert_name r.name rest

unfoldable pub missing_one : ExpectedColumn → Option ColumnRow → List Diff
missing_one e none = missing_column e.name ∷ []
missing_one e (some a) = []

unfoldable pub missing_diffs : List ColumnRow → List ExpectedColumn → List Diff
unfolding found missing_one
missing_diffs rows [] = []
missing_diffs rows (e ∷ es) = missing_one e (found e.name rows) ++ missing_diffs rows es

unfoldable pub all_column_diffs : List ColumnRow → List ExpectedColumn → List Diff
unfolding found column_diffs
all_column_diffs rows [] = []
all_column_diffs rows (e ∷ es) = column_diffs e (found e.name rows) ++ all_column_diffs rows es

unfoldable pub validate_columns : List ColumnRow → List Diff
unfolding missing_diffs unexpected_names all_column_diffs
validate_columns rows =
    missing_diffs rows expected_columns
    ++ (map unexpected_column (unexpected_names rows) ++ all_column_diffs rows expected_columns)

-- The collation and the character set of the table.
pub record TableRow : Type 0 where
  pub collation : Option Text
  pub character_set : Option Text

unfoldable pub validate_table_charset : Option TableRow → List Diff
unfolding diff_unless is_text
validate_table_charset none = no_table ∷ []
validate_table_charset (some t) =
    diff_unless (is_text t.character_set expected_charset) table_charset_differs
    ++ diff_unless (is_text t.collation expected_collation) table_collation_differs

-- The diffs of `validate`, or `none` where the queries fail.
pub data SchemaCheck : Type 0 where
  query_failed : SchemaCheck
  checked : List Diff → SchemaCheck

unfoldable pub is_ok : SchemaCheck → Bool
is_ok query_failed = false
is_ok (checked []) = true
is_ok (checked (d ∷ ds)) = false

unfoldable pub validate : Option (List ColumnRow × Option TableRow) → SchemaCheck
unfolding validate_table_charset validate_columns
validate none = query_failed
validate (some (rows, none)) = checked (validate_table_charset none)
validate (some (rows, some t)) = checked (validate_table_charset (some t) ++ validate_columns rows)

-- What the statements of `bootstrap` raise.
pub data BootstrapError : Type 0 where
  operational_error : ℕ → BootstrapError
  mysql_error_class : BootstrapError

pub record BootstrapResult : Type 0 where
  pub is_bootstrapped : Bool
  pub error_kind : Option String
  pub schema_check : Option SchemaCheck

unfoldable pub classify : BootstrapError → String
classify (operational_error errno) =
    if (errno == 1142) || (errno == 1227) then "mysql_privilege" else "mysql_error"
classify mysql_error_class = "mysql_error"

unfoldable pub bootstrap_and_validate : Option BootstrapError → SchemaCheck → BootstrapResult
unfolding classify is_ok
bootstrap_and_validate (some e) check = record {
  is_bootstrapped = false;
  error_kind = some (classify e);
  schema_check = none;
}
bootstrap_and_validate none check = record {
  is_bootstrapped = is_ok check;
  error_kind = if is_ok check then none else some "schema_drift";
  schema_check = some check;
}
