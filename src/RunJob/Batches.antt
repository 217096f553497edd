-- ===== src/RunJob/Batches.antt =====
-- bluewave/orchestrator.py, run_job: the audit rows when the server refuses a batch.
use blue_waving.Transform.{CsvFile, transform}
use blue_waving.Base.{
  ℕ, suc, ◌+◌, ◌<◌, String, ◌≡◌, refl, ◌≢◌, Bool, true, false, some, List, [], ◌∷◌, arith, length,
  ok, err,
}
use blue_waving.Exceptions.{database_error}
use blue_waving.Config.{Config}
use blue_waving.Row.{Row}
use blue_waving.Dedup.{source_bluewave}
use blue_waving.Runs.{Db, Session, new_run, start_run, open_session, commit, is_unique}
use blue_waving.Runs.Lifecycle.{IdsBelow}
use blue_waving.Sink.{chunks, insert_batch, insert_rows, counted, default_batch_size}
use blue_waving.Sink.Counts.{first_batches, insert_batches_refused}
use blue_waving.RunJob.{
  World, attempt, ingest, after_insert, recover, run_started, close, run_job, source_name,
  status_of,
}
use blue_waving.RunJob.Outcomes.{handle_lem}

insert_rows_refused :
    (up : ℕ → Bool) (run_id size k : ℕ) (rows : List Row) (s : Session)
    → rows ≢ []
    → ((j : ℕ) → j < k → up j ≡ true)
    → up k ≡ false
    → k < length (chunks (suc size) rows)
    → insert_rows up run_id (suc size) rows s ≡ (
      err database_error,
      record s {
        work = record s.work {
          audit = insert_batch run_id s.work.audit (first_batches k (chunks (suc size) rows));
        };
      },
    )
unfolding insert_rows counted
insert_rows_refused up run_id size k [] s ne before at h = absurd (ne refl)
insert_rows_refused up run_id size k (r ∷ rows) s ne before at h =
    let e : 0 + k ≡ k = omega arith in
    rw (
      insert_batches_refused up k 0 run_id s.work.audit (chunks (suc size) (r ∷ rows))
        (λ j l. before j (omega arith)) (rw e at) h)

-- Where the server is reached and takes the insert and every update of a run, the ids are below
-- the counter, no two scheduled `ok` runs share source and date, the CSV transforms to some rows,
-- and the server takes the batches before k of them and refuses batch k: run_job returns
-- `ingest_failed`, and the committed table is the former one with the rows of the batches before k
-- inserted.
pub run_job_commits_partial_insert :
    (w : World) (cfg : Config) (report_date k : ℕ) (manual : Bool) (db : Db) (csv : CsvFile)
    (rows : List Row)
    → ((st : String) → w.takes_update st ≡ true)
    → w.connects ≡ true
    → w.starts ≡ true
    → IdsBelow db.next_run db.runs
    → is_unique db.runs ≡ true
    → w.browse cfg report_date ≡ ok (some csv)
    → transform w.sha256_hex w.zone_of source_bluewave cfg.operator_timezone csv ≡ ok rows
    → rows ≢ []
    → ((j : ℕ) → j < k → w.takes_batch j ≡ true)
    → w.takes_batch k ≡ false
    → k < length (chunks default_batch_size rows)
    → let (res, db') = run_job w (some cfg) report_date manual db in
      (res ≡ ok "ingest_failed")
      × (db'.audit
          ≡ insert_batch db.next_run db.audit (first_batches k (chunks default_batch_size rows)))
unfolding run_job run_started start_run open_session close commit new_run attempt ingest
    after_insert recover
run_job_commits_partial_insert w cfg report_date k manual db csv rows up c st below u b t ne before
      at h =
    let r = new_run db.next_run w.start_time source_name report_date manual in
    let s = (start_run w.start_time source_name report_date manual (open_session db)).1 in
    let audit =
      insert_batch db.next_run s.work.audit (first_batches k (chunks default_batch_size rows)) in
    let s' : Session = record s { work = record s.work { audit = audit } } in
    rw
      (
        c,
        st,
        b,
        attempt,
        t,
        ingest,
        insert_rows_refused w.takes_batch db.next_run 499 k rows s ne before at h,
        after_insert,
        recover,
        handle_lem w up db.runs r below u database_error s' refl,
      )
      (unfold status_of in (refl, refl))
