-- ===== src/RunJob.antt =====
-- bluewave/orchestrator.py, `run_job`: one report date from the browser to the database. The browser
-- part and what is read of the file are a parameter.
pub mod Outcomes
pub mod Batches
pub mod Repeats
pub mod Integrity
pub mod Preservation
pub mod Accounts
use blue_waving.Transform.{CsvFile, Zone, transform}
use blue_waving.Base.{
  ℕ, String, Bool, not, ◌||◌, Option, none, some, List, if◌then◌else◌, length, take, Text, ℤ, pos,
  Result, ok, err,
}
use blue_waving.Exceptions.{Exn, failure, status, runtime_error, database_error}
use blue_waving.Config.{Config}
use blue_waving.Row.{Row}
use blue_waving.Dedup.{source_bluewave}
use blue_waving.Runs.{Db, Session, Outcome, open_session, start_run, finalize_run}
use blue_waving.Sink.{default_batch_size, insert_rows}

-- What surrounds one run.
pub record World : Type 0 where
  -- `connect` succeeds, and the server takes the insert of start_run
  pub connects : Bool
  pub starts : Bool
  -- build_driver, login_and_navigate and scrape_event_report: `ok none` is an empty report, and
  -- `ok (some csv)` what the downloaded file holds
  pub browse : Config → ℕ → Result Exn (Option CsvFile)
  pub sha256_hex : Text → Text
  pub zone_of : Text → Option Zone
  -- the server takes batch i of the insert, and the update of a run to a status
  pub takes_batch : ℕ → Bool
  pub takes_update : String → Bool
  -- `str(e)` of a RunFailure, `traceback.format_exc()` of another exception
  pub describe : Exn → Text
  pub start_time : ℕ
  pub end_time : ℕ

abbrev pub source_name : String
source_name = "Bluewave"

unfoldable pub finalize : World → ℕ → Outcome → Session → Result Exn (Unit {0}) × Session
finalize w run_id o = finalize_run (w.takes_update o.status) w.end_time run_id o

unfoldable pub ok_outcome : ℕ → ℕ → ℤ → Outcome
ok_outcome rows_in_csv inserted duplicate = record {
  status = "ok";
  rows_in_csv = some rows_in_csv;
  rows_inserted = some inserted;
  rows_duplicate = some duplicate;
  error_excerpt = none;
  screenshot_path = none;
}

unfoldable pub failed_outcome : String → Text → Outcome
failed_outcome status text = record {
  status = status;
  rows_in_csv = none;
  rows_inserted = none;
  rows_duplicate = none;
  error_excerpt = some (take 2000 text);
  screenshot_path = none;
}

-- The status that the two `except` clauses write.
unfoldable pub status_of : Exn → String
unfolding status
status_of (failure f) = status f
status_of _ = "ingest_failed"

-- `return status` after a finalize_run that did not raise.
unfoldable pub returning : String → Result Exn (Unit {0}) × Session → Result Exn String × Session
returning status (ok u, s) = (ok status, s)
returning status (err e, s) = (err e, s)

-- `except RunFailure` and `except Exception`; what finalize_run raises there leaves run_job.
unfoldable pub handle : World → ℕ → Exn → Session → Result Exn String × Session
unfolding finalize failed_outcome status_of returning
handle w run_id e s =
    returning (status_of e) (finalize w run_id (failed_outcome (status_of e) (w.describe e)) s)

unfoldable pub after_insert :
    World → ℕ → List Row → Result Exn (ℕ × ℤ) × Session → Result Exn String × Session
unfolding finalize ok_outcome returning
after_insert w run_id rows (err e, s) = (err e, s)
after_insert w run_id rows (ok (inserted, duplicate), s) =
    returning "ok" (finalize w run_id (ok_outcome (length rows) inserted duplicate) s)

unfoldable pub ingest : World → ℕ → Result Exn (List Row) → Session → Result Exn String × Session
unfolding after_insert
ingest w run_id (err e) s = (err e, s)
ingest w run_id (ok rows) s =
    after_insert w run_id rows (insert_rows w.takes_batch run_id default_batch_size rows s)

-- The body of the `try`.
unfoldable pub attempt :
    World → Config → ℕ → Result Exn (Option CsvFile) → Session → Result Exn String × Session
unfolding finalize ok_outcome returning ingest
attempt w cfg run_id (err e) s = (err e, s)
attempt w cfg run_id (ok none) s = returning "ok" (finalize w run_id (ok_outcome 0 0 (pos 0)) s)
attempt w cfg run_id (ok (some csv)) s =
    ingest w run_id (transform w.sha256_hex w.zone_of source_bluewave cfg.operator_timezone csv) s

unfoldable pub recover : World → ℕ → Result Exn String × Session → Result Exn String × Session
unfolding handle
recover w run_id (ok status, s) = (ok status, s)
recover w run_id (err e, s) = handle w run_id e s

unfoldable pub run_started : World → Config → ℕ → ℕ × Session → Result Exn String × Session
unfolding attempt recover
run_started w cfg report_date (run_id, s) =
    recover w run_id (attempt w cfg run_id (w.browse cfg report_date) s)

-- The connection closes: what was not committed is gone.
unfoldable pub close : Result Exn String × Session → Result Exn String × Db
close (r, s) = (r, s.saved)

unfoldable pub run_job : World → Option Config → ℕ → Bool → Db → Result Exn String × Db
unfolding start_run open_session run_started close
run_job w none report_date manual db = (err runtime_error, db)
run_job w (some cfg) report_date manual db =
    if not w.connects || not w.starts
    then (err database_error, db)
    else close (
        run_started w cfg report_date
          (start_run w.start_time source_name report_date manual (open_session db)))
