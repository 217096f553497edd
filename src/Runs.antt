-- ===== src/Runs.antt =====
-- bluewave/runs.py: the run rows of z_audit_logs_efk_runs, over a table that is a list of rows.
-- A date is its ordinal, a time a number of milliseconds. The statements read and write `work`, the
-- connection's view of the database; `commit` makes it `saved`. With autocommit off, what was not
-- committed is gone when the connection closes.
pub mod Lifecycle
pub mod History
use blue_waving.Base.{
  ℕ, ◌+◌, ◌-◌, ◌*◌, String, Bool, true, not, ◌&&◌, ◌||◌, Option, none, some, List, [], ◌∷◌, ◌++◌,
  map, leb, ◌==◌, str_eq, if◌then◌else◌, take, any, count_if, Text, codes, ℤ, Result, ok, err,
}
use blue_waving.Row.{Row}
use blue_waving.Exceptions.{Exn, value_error, database_error}

pub record RunRow : Type 0 where
  pub id : ℕ
  pub source : String
  pub report_date : ℕ
  pub started_at : ℕ
  pub finished_at : Option ℕ
  pub status : String
  pub rows_in_csv : Option ℕ
  pub rows_inserted : Option ℕ
  pub rows_duplicate : Option ℤ
  pub manual : Bool
  pub error_excerpt : Option Text
  pub screenshot_path : Option Text

-- A row of z_audit_logs_efk. The columns id and ingested_at are not modelled, and comments is
-- always NULL.
pub record AuditRow : Type 0 where
  pub row : Row
  pub open row use *
  pub ingest_run_id : ℕ

-- Both tables, and the AUTO_INCREMENT counter of the runs.
pub record Db : Type 0 where
  pub runs : List RunRow
  pub next_run : ℕ
  pub audit : List AuditRow

pub record Session : Type 0 where
  pub saved : Db
  pub work : Db

unfoldable pub open_session : Db → Session
open_session db = record { saved = db; work = db }

unfoldable pub commit : Session → Session
commit s = record s { saved = s.work }

abbrev pub terminal_statuses : List String
terminal_statuses =
    "ok" ∷ "auth_failed" ∷ "nav_failed" ∷ "report_timeout" ∷ "download_failed" ∷ "parse_failed"
    ∷ "ingest_failed" ∷ "schema_drift" ∷ "skipped" ∷ []

abbrev pub reap_error : Text
reap_error = codes "reaped on boot — container died mid-run"

-- `status in TERMINAL_STATUSES`
unfoldable pub is_terminal : String → Bool
is_terminal s = any (λ t. str_eq s t) terminal_statuses

unfoldable pub new_run : ℕ → ℕ → String → ℕ → Bool → RunRow
new_run id now source report_date manual = record {
  id = id;
  source = source;
  report_date = report_date;
  started_at = now;
  finished_at = none;
  status = "running";
  rows_in_csv = none;
  rows_inserted = none;
  rows_duplicate = none;
  manual = manual;
  error_excerpt = none;
  screenshot_path = none;
}

unfoldable pub start_run : ℕ → String → ℕ → Bool → Session → ℕ × Session
unfolding commit
start_run now source report_date manual s =
    let db = s.work in
    (
      db.next_run,
      commit (record s {
        work = record db {
          runs = db.runs ++ new_run db.next_run now source report_date manual ∷ [];
          next_run = db.next_run + 1;
        };
      }),
    )

-- The generated column ok_scheduled_date is not NULL.
unfoldable pub is_ok_scheduled : RunRow → Bool
is_ok_scheduled r = str_eq r.status "ok" && not r.manual

-- Two rows that agree on the columns of uk_ok_scheduled_date.
unfoldable pub collides : RunRow → RunRow → Bool
unfolding is_ok_scheduled
collides r t =
    is_ok_scheduled r
    && (is_ok_scheduled t && (str_eq r.source t.source && (r.report_date == t.report_date)))

-- What finalize_run sets.
pub record Outcome : Type 0 where
  pub status : String
  pub rows_in_csv : Option ℕ
  pub rows_inserted : Option ℕ
  pub rows_duplicate : Option ℤ
  pub error_excerpt : Option Text
  pub screenshot_path : Option Text

-- `(error_excerpt or None) and error_excerpt[:2000]`
unfoldable pub clip_excerpt : Option Text → Option Text
clip_excerpt none = none
clip_excerpt (some []) = none
clip_excerpt (some (c ∷ t)) = some (take 2000 (c ∷ t))

unfoldable pub set_outcome : ℕ → Outcome → RunRow → RunRow
unfolding clip_excerpt
set_outcome now o r = record r {
  finished_at = some now;
  status = o.status;
  rows_in_csv = o.rows_in_csv;
  rows_inserted = o.rows_inserted;
  rows_duplicate = o.rows_duplicate;
  error_excerpt = clip_excerpt o.error_excerpt;
  screenshot_path = o.screenshot_path;
}

-- `UPDATE … WHERE id = run_id`
unfoldable pub update_run : ℕ → (RunRow → RunRow) → List RunRow → List RunRow
update_run id f [] = []
update_run id f (r ∷ rs) = (if r.id == id then f r else r) ∷ update_run id f rs

-- No two rows violate uk_ok_scheduled_date.
unfoldable pub is_unique : List RunRow → Bool
unfolding collides
is_unique [] = true
is_unique (r ∷ rs) = not (any (collides r) rs) && is_unique rs

-- A statement that the server refuses is undone by itself, and the transaction stays open.
unfoldable pub store_runs : List RunRow → Session → Result Exn (Unit {0}) × Session
unfolding commit
store_runs rows s =
    if is_unique rows
    then (ok tt, commit (record s { work = record s.work { runs = rows } }))
    else (err database_error, s)

-- `up` says whether the statement reaches the server.
unfoldable pub finalize_run : Bool → ℕ → ℕ → Outcome → Session → Result Exn (Unit {0}) × Session
finalize_run up now run_id o s =
    if not (is_terminal o.status)
    then (err value_error, s)
    else if not up
    then (err database_error, s)
    else store_runs (update_run run_id (set_outcome now o) s.work.runs) s

unfoldable pub is_stuck : String → RunRow → Bool
is_stuck source r = str_eq r.source source && str_eq r.status "running"

-- `COALESCE(finished_at, now)`
unfoldable pub coalesce : Option ℕ → ℕ → Option ℕ
coalesce none now = some now
coalesce (some t) now = some t

unfoldable pub reap_row : ℕ → String → RunRow → RunRow
unfolding is_stuck coalesce
reap_row now source r =
    if is_stuck source r
    then record r {
      status = "ingest_failed";
      finished_at = coalesce r.finished_at now;
      error_excerpt = some reap_error;
    }
    else r

unfoldable pub reap_stuck_runs : ℕ → String → Session → ℕ × Session
unfolding reap_row commit
reap_stuck_runs now source s = (
  count_if (is_stuck source) s.work.runs,
  commit (record s { work = record s.work { runs = map (reap_row now source) s.work.runs } }),
)

unfoldable pub has_successful_scheduled_run : String → ℕ → List RunRow → Bool
has_successful_scheduled_run source report_date = any λ r.
    str_eq r.source source
    && ((r.report_date == report_date) && (str_eq r.status "ok" && not r.manual))

-- `status IN ('ok', 'skipped')`
unfoldable pub is_ingested : RunRow → Bool
is_ingested r = str_eq r.status "ok" || str_eq r.status "skipped"

unfoldable pub find_ingested_dates : String → ℕ → List RunRow → List ℕ
unfolding is_ingested
find_ingested_dates source since [] = []
find_ingested_dates source since (r ∷ rs) =
    let rest = find_ingested_dates source since rs in
    if str_eq r.source source && (is_ingested r && leb since r.report_date)
    then r.report_date ∷ rest
    else rest
