-- ===== src/Schema/Tables.antt =====
-- bluewave/schema.py: the two CREATE TABLE statements, the queries on information_schema, and
-- bootstrap_and_validate on a server. The server keeps a table as information_schema shows it. Keys and
-- defaults are left out here: the unique keys and the generated column are in Sink and Runs.
use blue_waving.Schema.{
  BootstrapResult, validate, SchemaCheck, is_ok, bootstrap_and_validate, TableRow, ColumnRow,
  BootstrapError,
}
use blue_waving.Base.{
  String, Bool, true, false, Option, none, some, List, [], ◌∷◌, ◌++◌, map, if◌then◌else◌, Text,
  codes, text_eq,
}

-- A column of a CREATE TABLE statement.
pub record ColumnDef : Type 0 where
  pub name : Text
  pub column_type : Text
  pub not_null : Bool
  pub auto_increment : Bool

pub record TableDef : Type 0 where
  pub name : Text
  pub columns : List ColumnDef
  pub charset : Text
  pub collate : Text

abbrev pub define : String → String → Bool → Bool → ColumnDef
define name column_type not_null auto_increment = record {
  name = codes name;
  column_type = codes column_type;
  not_null = not_null;
  auto_increment = auto_increment;
}

abbrev pub audit_table : Text
audit_table = codes "z_audit_logs_efk"

abbrev pub runs_table : Text
runs_table = codes "z_audit_logs_efk_runs"

abbrev pub ddl_audit_logs : TableDef
ddl_audit_logs = record {
  name = audit_table;
  columns =
      define "id" "BIGINT UNSIGNED" true true
      ∷ define "timestamp" "DATETIME(3)" true false
      ∷ define "source" "VARCHAR(64)" true false
      ∷ define "operation" "VARCHAR(128)" true false
      ∷ define "instance" "VARCHAR(128)" true false
      ∷ define "user_name" "VARCHAR(256)" false false
      ∷ define "user_id" "VARCHAR(64)" false false
      ∷ define "extra_data" "JSON" false false
      ∷ define "comments" "VARCHAR(1024)" false false
      ∷ define "dedup_hash" "CHAR(64)" true false
      ∷ define "ingested_at" "DATETIME(3)" true false
      ∷ define "ingest_run_id" "BIGINT UNSIGNED" false false
      ∷ [];
  charset = codes "utf8mb4";
  collate = codes "utf8mb4_unicode_ci";
}

abbrev pub ddl_audit_logs_runs : TableDef
ddl_audit_logs_runs = record {
  name = runs_table;
  columns =
      define "id" "BIGINT UNSIGNED" true true
      ∷ define "source" "VARCHAR(64)" true false
      ∷ define "report_date" "DATE" true false
      ∷ define "started_at" "DATETIME(3)" true false
      ∷ define "finished_at" "DATETIME(3)" false false
      ∷ define "status" "VARCHAR(32)" true false
      ∷ define "rows_in_csv" "INT UNSIGNED" false false
      ∷ define "rows_inserted" "INT UNSIGNED" false false
      ∷ define "rows_duplicate" "INT UNSIGNED" false false
      ∷ define "manual" "TINYINT(1)" true false
      ∷ define "error_excerpt" "VARCHAR(2000)" false false
      ∷ define "screenshot_path" "VARCHAR(512)" false false
      ∷ define "ok_scheduled_date" "DATE" false false
      ∷ [];
  charset = codes "utf8mb4";
  collate = codes "utf8mb4_unicode_ci";
}

-- A table of the server: its rows in information_schema.COLUMNS and TABLES.
pub record Table : Type 0 where
  pub name : Text
  pub columns : List ColumnRow
  pub table_row : TableRow

pub record Server : Type 0 where
  -- connecting succeeds
  pub connects : Bool
  -- what the two statements and the commit of `bootstrap` raise, if they do
  pub refuses_audit : Option BootstrapError
  pub refuses_runs : Option BootstrapError
  pub refuses_commit : Option BootstrapError
  -- the queries on information_schema are answered, not with an Error of pymysql
  pub answers : Bool
  -- how information_schema shows a column and a table
  pub shows_column : TableDef → ColumnDef → ColumnRow
  pub shows_table : TableDef → TableRow

unfoldable pub find_table : Text → List Table → Option Table
find_table name [] = none
find_table name (t ∷ ts) =
    let rest = find_table name ts in if text_eq t.name name then some t else rest

abbrev pub shown_table : Server → TableDef → Table
shown_table s d = record {
  name = d.name;
  columns = map (s.shows_column d) d.columns;
  table_row = s.shows_table d;
}

unfoldable pub create_unless : Server → TableDef → Option Table → List Table → List Table
create_unless s d (some t) ts = ts
create_unless s d none ts = ts ++ shown_table s d ∷ []

-- `CREATE TABLE IF NOT EXISTS`
unfoldable pub create_table : Server → TableDef → List Table → List Table
unfolding find_table create_unless
create_table s d ts = create_unless s d (find_table d.name ts) ts

-- The statement is carried out if it is not refused, and then the rest is.
unfoldable pub unless_refused {ℓ} : {A : Type ℓ} → Option BootstrapError → A → A → A
unless_refused none a b = a
unless_refused (some e) a b = b

unfoldable pub first_error :
    Option BootstrapError → Option BootstrapError → Option BootstrapError → Option BootstrapError
first_error (some e) f g = some e
first_error none (some f) g = some f
first_error none none g = g

-- `bootstrap`: what it raises, and the tables after it. The server commits each CREATE TABLE.
unfoldable pub bootstrap : Server → List Table → Option BootstrapError × List Table
unfolding create_table unless_refused first_error
bootstrap s ts =
    let audit = create_table s ddl_audit_logs ts in
    (
      first_error s.refuses_audit s.refuses_runs s.refuses_commit,
      unless_refused s.refuses_audit
          (unless_refused s.refuses_runs (create_table s ddl_audit_logs_runs audit) audit) ts,
    )

unfoldable pub columns_of : Option Table → List ColumnRow
columns_of none = []
columns_of (some t) = t.columns

-- `_fetch_columns`
unfoldable pub fetch_columns : List Table → List ColumnRow
unfolding columns_of find_table
fetch_columns ts = columns_of (find_table audit_table ts)

unfoldable pub table_row_of : Option Table → Option TableRow
table_row_of none = none
table_row_of (some t) = some t.table_row

-- `_fetch_table_charset`
unfoldable pub fetch_table_charset : List Table → Option TableRow
unfolding table_row_of find_table
fetch_table_charset ts = table_row_of (find_table audit_table ts)

unfoldable pub query : Server → List Table → Option (List ColumnRow × Option TableRow)
unfolding fetch_columns fetch_table_charset
query s ts = if s.answers then some (fetch_columns ts, fetch_table_charset ts) else none

-- `bootstrap_and_validate` on a connection
unfoldable pub bootstrap_on : Server → List Table → BootstrapResult × List Table
unfolding bootstrap_and_validate validate query
bootstrap_on s ts =
    let (failed, ts') = bootstrap s ts in
    (bootstrap_and_validate failed (validate (query s ts')), ts')

-- `SchemaCheck.reason_key`
unfoldable pub reason_key : SchemaCheck → Option String
unfolding is_ok
reason_key check = if is_ok check then none else some "schema_drift"
