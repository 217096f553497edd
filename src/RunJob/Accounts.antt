-- ===== src/RunJob/Accounts.antt =====
-- bluewave/orchestrator.py, run_job: what a run that gets its file through leaves in both tables.
use blue_waving.Transform.{CsvFile, transform}
use blue_waving.Sink.Laws.{insert_batch_idem, UniqueHashes}
use blue_waving.Exceptions.{Exn}
use blue_waving.RunJob.Preservation.{run_job-IsConsistent}
use blue_waving.RunJob.Outcomes.{handle_lem}
use blue_waving.RunJob.{
  status_of, returning, finalize, source_name, recover, after_insert, ingest, database_error,
  attempt, failed_outcome, close, ok_outcome, run_started, run_job, World,
}
use blue_waving.Runs.{
  is_terminal, is_unique, Db, new_run, set_outcome, commit, collides, open_session, start_run,
  Outcome, RunRow, Session, AuditRow,
}
use blue_waving.Runs.Lifecycle.{finalize_run-last, IdsBelow}
use blue_waving.RunJob.Integrity.{not_member_below, run_ids, IsConsistent, KnownTags}
use blue_waving.Dedup.{source_bluewave}
use blue_waving.Config.{Config}
use blue_waving.Sink.Counts.{insert_rows-eq-insert_batch, insert_rows_exact}
use blue_waving.Sink.{insert_rows, insert_batch, count_run}
use blue_waving.Row.{Row}
use blue_waving.Base.{
  ℕ, suc, ◌+◌, ◌-◌, String, ◌≡◌, refl, sym, ap, ◌∙◌, inl, inr, Bool, true, false, some, List, [],
  ◌∷◌, ◌++◌, arith, if◌then◌else◌, Bool-cases, length, any, member, pos, Result, ok,
}
use mathlib.Core.Path.{subst}

-- The server that a run meets is reached, and takes the insert of the run and every update of it.
pub record Serves (w : World) : Type 0 where
  pub reached : w.connects ≡ true
  pub inserts : w.starts ≡ true
  pub updates : (st : String) → w.takes_update st ≡ true

-- The server takes every batch too, and the browser brings a file whose rows are `rows`.
pub record Brings (w : World) (cfg : Config) (report_date : ℕ) (rows : List Row) : Type 0 where
  pub serves : Serves w
  pub batches : (i : ℕ) → w.takes_batch i ≡ true
  pub csv : CsvFile
  pub browsed : w.browse cfg report_date ≡ ok (some csv)
  pub transformed :
      transform w.sha256_hex w.zone_of source_bluewave cfg.operator_timezone csv ≡ ok rows

fresh_count :
    (n : ℕ) (ids : List ℕ) (audit : List AuditRow)
    → member n ids ≡ false
    → KnownTags ids audit
    → count_run n audit ≡ 0
unfolding count_run
fresh_count n ids [] free k = refl
fresh_count n ids (a ∷ audit) free k = ground (arith, k.0, free, fresh_count n ids audit free k.1)

-- A run without rows of its own so far, on a table without repeated hashes.
insert_rows_whole :
    (up : ℕ → Bool) (run_id size : ℕ) (rows : List Row) (s : Session)
    → ((i : ℕ) → up i ≡ true)
    → count_run run_id s.work.audit ≡ 0
    → UniqueHashes s.work.audit
    → let audit = insert_batch run_id s.work.audit rows in
      let grown = length audit - length s.work.audit in
      insert_rows up run_id (suc size) rows s
      ≡ (ok (grown, pos (length rows - grown)), record s { work = record s.work { audit = audit } })
insert_rows_whole up run_id size [] s all fresh u = unfold insert_rows insert_batch in ground arith
insert_rows_whole up run_id size (r ∷ rows) s all fresh u =
    let exact = insert_rows_exact up run_id size (r ∷ rows) s all (λ e. cc e) fresh u in
    let whole = insert_rows-eq-insert_batch up run_id size (r ∷ rows) s all (λ e. cc e) in
    λ i. (exact.0 i, (whole i).1)

-- The run at its end, if its rows are `n`, of which `grown` are new.
abbrev pub settled_outcome : World → ℕ → ℕ → List RunRow → RunRow → Outcome
settled_outcome w n grown base r =
    let good = ok_outcome n grown (pos (n - grown)) in
    if any (λ t. collides t (set_outcome w.end_time good r)) base
    then failed_outcome "ingest_failed" (w.describe database_error)
    else good

-- The end of the body of the `try`, with the handler around it.
settle :
    (w : World) (base : List RunRow) (r : RunRow) (n grown : ℕ) (s : Session)
    → ((st : String) → w.takes_update st ≡ true)
    → IdsBelow r.id base
    → is_unique base ≡ true
    → s.work.runs ≡ base ++ r ∷ []
    → let o = settled_outcome w n grown base r in
      recover w r.id (returning "ok" (finalize w r.id (ok_outcome n grown (pos (n - grown))) s)) ≡ (
        ok o.status,
        commit
            (record s { work = record s.work { runs = base ++ set_outcome w.end_time o r ∷ [] } }),
      )
unfolding finalize
settle w base r n grown s up below u e =
    let good = ok_outcome n grown (pos (n - grown)) in
    let ended =
      finalize_run-last w.end_time good base r s e below u
        (unfold ok_outcome is_terminal in refl) in
    let clash = any (λ t. collides t (set_outcome w.end_time good r)) base in
    rw (up good.status, ended)
      (elim (Bool-cases clash) [
        | inl busy ↦ rw busy (
            unfold returning recover status_of failed_outcome in
            handle_lem w up base r below u database_error s e)
        | inr free ↦ rw free (unfold returning recover ok_outcome in refl)
      ])

run_job_served :
    (w : World) (cfg : Config) (report_date : ℕ) (manual : Bool) (db : Db)
    → w.connects ≡ true
    → w.starts ≡ true
    → run_job w (some cfg) report_date manual db
      ≡ close (
          run_started w cfg report_date
            (start_run w.start_time source_name report_date manual (open_session db)))
unfolding run_job
run_job_served w cfg report_date manual db c st = ground (arith, c, st)

-- Where the server is reached and takes every statement, the keys of the tables hold, and the CSV
-- transforms: the committed audit table is the former one with the rows inserted, those whose hash
-- it has already left out, and the new run is recorded with the number of rows of the file, the
-- number by which the table has grown and the rest as duplicates, as `ok`; only where it would be
-- a second scheduled `ok` run of the date is it recorded as `ingest_failed`. That status is
-- returned.
pub run_job_ingests :
    (w : World) (cfg : Config) (report_date : ℕ) (manual : Bool) (db : Db) (rows : List Row)
    → IsConsistent db
    → Brings w cfg report_date rows
    → let r = new_run db.next_run w.start_time source_name report_date manual in
      let audit = insert_batch db.next_run db.audit rows in
      let o = settled_outcome w (length rows) (length audit - length db.audit) db.runs r in
      run_job w (some cfg) report_date manual db ≡ (
        ok o.status,
        record {
          runs = db.runs ++ set_outcome w.end_time o r ∷ [];
          next_run = db.next_run + 1;
          audit = audit;
        },
      )
unfolding run_started start_run open_session close commit new_run attempt ingest after_insert
run_job_ingests w cfg report_date manual db rows k h =
    let r = new_run db.next_run w.start_time source_name report_date manual in
    let s = (start_run w.start_time source_name report_date manual (open_session db)).1 in
    let audit = insert_batch db.next_run db.audit rows in
    let s' : Session = record s { work = record s.work { audit = audit } } in
    let fresh =
      fresh_count db.next_run (run_ids db.runs) db.audit
        (not_member_below db.next_run db.runs k.ids_below) k.tags in
    rw
      (
        run_job_served w cfg report_date manual db h.serves.reached h.serves.inserts,
        h.browsed,
        attempt,
        h.transformed,
        ingest,
        insert_rows_whole w.takes_batch db.next_run 499 rows s h.batches fresh k.hashes,
        after_insert,
      )
      (rw
        (settle w db.runs r (length rows) (length audit - length db.audit) s' h.serves.updates
          (unfold new_run in k.ids_below) k.unique (unfold new_run in refl))
        refl)

-- Where a run has brought rows into tables whose keys hold, and a later run, of whatever date,
-- brings the same rows: the audit table is left as it was, and the run is recorded as `ok` with no
-- row inserted and every row a duplicate; only where it would be a second scheduled `ok` run of
-- its date is it recorded as `ingest_failed`, without numbers. That status is returned.
pub run_job_again :
    (w w' : World) (cfg cfg' : Config) (report_date report_date' : ℕ) (manual manual' : Bool)
    (db : Db) (rows : List Row)
    → IsConsistent db
    → Brings w cfg report_date rows
    → Brings w' cfg' report_date' rows
    → let db' = (run_job w (some cfg) report_date manual db).1 in
      let r = new_run db'.next_run w'.start_time source_name report_date' manual' in
      let o = settled_outcome w' (length rows) 0 db'.runs r in
      run_job w' (some cfg') report_date' manual' db' ≡ (
        ok o.status,
        record db' {
          runs = db'.runs ++ set_outcome w'.end_time o r ∷ [];
          next_run = db'.next_run + 1;
        },
      )
run_job_again w w' cfg cfg' report_date report_date' manual manual' db rows k h h' =
    let db' = (run_job w (some cfg) report_date manual db).1 in
    let first = run_job_ingests w cfg report_date manual db rows k h in
    let k' = run_job-IsConsistent w (some cfg) report_date manual db k in
    let filled : db'.audit ≡ insert_batch db.next_run db.audit rows =
      ap (λ (p : Result Exn String × Db). p.1.audit) first in
    let same : insert_batch db'.next_run db'.audit rows ≡ db'.audit =
      subst (λ a. insert_batch db'.next_run a rows ≡ a) (sym filled)
        (insert_batch_idem db.next_run db'.next_run db.audit rows) in
    let none_new : length db'.audit - length db'.audit ≡ 0 = omega arith in
    run_job_ingests w' cfg' report_date' manual' db' rows k' h' ∙ rw (same, none_new)
