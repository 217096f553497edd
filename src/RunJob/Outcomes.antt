-- ===== src/RunJob/Outcomes.antt =====
-- bluewave/orchestrator.py, run_job: the status that it records and returns.
use blue_waving.Transform.{CsvFile}
use blue_waving.RunJob.{
  close, run_started, source_name, Db, ok_outcome, failed_outcome, default_batch_size, Config,
  run_job, recover, ingest, handle, attempt, after_insert, World, finalize, status_of, returning,
}
use blue_waving.Base.{
  ℕ, zero, suc, ◌+◌, String, ◌≡◌, refl, sym, ap, ◌∙◌, inl, inr, Bool, true, false, Option, none,
  some, List, [], ◌∷◌, ◌++◌, str_eq, Bool-cases, length, any, ℤ, pos, Result, ok, err,
}
use blue_waving.Runs.Lifecycle.{is_unique-snoc, collides_not_ok, IdsBelow, finalize_run-last}
use blue_waving.Runs.{
  start_run, open_session, commit, new_run, is_ok_scheduled, RunRow, Session, Outcome, is_terminal,
  set_outcome, is_unique, collides,
}
use blue_waving.Exceptions.{Exn, RunFailure, failure, status}
use blue_waving.Row.{Row}
use blue_waving.Sink.{insert_rows}

pub insert_rows-runs :
    (up : ℕ → Bool) (run_id size : ℕ) (rows : List Row) (s : Session)
    → (insert_rows up run_id size rows s).1.work.runs ≡ s.work.runs
unfolding insert_rows
insert_rows-runs up run_id size [] s = refl
insert_rows-runs up run_id zero (r ∷ rows) s = refl
insert_rows-runs up run_id (suc size) (r ∷ rows) s = refl

status-is_terminal :
    (f : RunFailure) → (is_terminal (status f) ≡ true) × (str_eq (status f) "ok" ≡ false)
unfolding status is_terminal
status-is_terminal RunFailure.run_failure = (refl, refl)
status-is_terminal _ = (refl, refl)

-- What the handlers write is a terminal status other than `ok`.
pub status_of-is_terminal :
    (e : Exn) → (is_terminal (status_of e) ≡ true) × (str_eq (status_of e) "ok" ≡ false)
unfolding status_of
status_of-is_terminal (failure f) = status-is_terminal f
status_of-is_terminal _ = unfold is_terminal in (refl, refl)

not_ok :
    (t : ℕ) (r : RunRow) (o : Outcome)
    → str_eq o.status "ok" ≡ false
    → is_ok_scheduled (set_outcome t o r) ≡ false
unfolding is_ok_scheduled set_outcome
not_ok t r o h = rw h

module _ (w : World) (up : (st : String) → w.takes_update st ≡ true) (base : List RunRow)
    (r : RunRow) (below : IdsBelow r.id base) (u : is_unique base ≡ true) where
  -- The run's row is finalized and committed with the status returned, or still as it was started.
  Settled : Result Exn String × Session → Type 0
  Settled (ok st, s) =
      (o : Outcome) × (o.status ≡ st)
      × (is_terminal st ≡ true)
      × (s.saved.runs ≡ base ++ set_outcome w.end_time o r ∷ [])
      × (is_unique s.saved.runs ≡ true)
  Settled (err e, s) = s.work.runs ≡ base ++ r ∷ []

  still_unique :
      (t : RunRow) → any (λ x. collides x t) base ≡ false → is_unique (base ++ t ∷ []) ≡ true
  still_unique t free = rw (is_unique-snoc base t, u, free)

  finalize-Settled :
      (o : Outcome) (s : Session)
      → is_terminal o.status ≡ true
      → s.work.runs ≡ base ++ r ∷ []
      → Settled (returning o.status (finalize w r.id o s))
  unfolding Settled returning finalize commit
  finalize-Settled o s t e =
      rw (up o.status, finalize_run-last w.end_time o base r s e below u t, returning)
        (elim (Bool-cases (any (λ x. collides x (set_outcome w.end_time o r)) base)) [
          | inl clash ↦ rw clash e
          | inr free ↦ rw free (o, refl, t, refl, still_unique (set_outcome w.end_time o r) free)
        ])

  after_insert-Settled :
      (rows : List Row) (res : Result Exn (ℕ × ℤ)) (s : Session)
      → s.work.runs ≡ base ++ r ∷ []
      → Settled (after_insert w r.id rows (res, s))
  unfolding after_insert ok_outcome
  after_insert-Settled rows (err x) s e = unfold Settled in e
  after_insert-Settled rows (ok (inserted, duplicate)) s e =
      finalize-Settled (ok_outcome (length rows) inserted duplicate) s (unfold is_terminal in refl)
        e

  ingest-Settled :
      (res : Result Exn (List Row)) (s : Session)
      → s.work.runs ≡ base ++ r ∷ []
      → Settled (ingest w r.id res s)
  unfolding ingest
  ingest-Settled (err x) s e = unfold Settled in e
  ingest-Settled (ok rows) s e =
      after_insert-Settled rows _ _
        (insert_rows-runs w.takes_batch r.id default_batch_size rows s ∙ e)

  attempt-Settled :
      (cfg : Config) (res : Result Exn (Option CsvFile)) (s : Session)
      → s.work.runs ≡ base ++ r ∷ []
      → Settled (attempt w cfg r.id res s)
  unfolding attempt
  attempt-Settled cfg (err x) s e = unfold Settled in e
  attempt-Settled cfg (ok none) s e =
      finalize-Settled (ok_outcome 0 0 (pos 0)) s (unfold is_terminal in refl) e
  attempt-Settled cfg (ok (some csv)) s e = ingest-Settled _ s e

  -- The run's row is finalized and committed with the status that is returned.
  Recorded : Result Exn String × Session → Type 0
  Recorded (res, s) =
      (o : Outcome) × (res ≡ ok o.status)
      × (is_terminal o.status ≡ true)
      × (s.saved.runs ≡ base ++ set_outcome w.end_time o r ∷ [])
      × (is_unique s.saved.runs ≡ true)

  -- A handler always gets its status written.
  pub handle_lem :
      (x : Exn) (s : Session)
      → s.work.runs ≡ base ++ r ∷ []
      → handle w r.id x s ≡ (
        ok (status_of x),
        commit (record s {
          work = record s.work {
            runs =
                base ++ set_outcome w.end_time (failed_outcome (status_of x) (w.describe x)) r ∷ [];
          };
        }),
      )
  unfolding handle
  handle_lem x s e =
      let o = failed_outcome (status_of x) (w.describe x) in
      let t = status_of-is_terminal x in
      rw (
        up (status_of x),
        finalize_run-last w.end_time o base r s e below u t.0,
        collides_not_ok base (set_outcome w.end_time o r) (not_ok w.end_time r o t.1),
        returning,
      )

  handle-Recorded :
      (x : Exn) (s : Session) → s.work.runs ≡ base ++ r ∷ [] → Recorded (handle w r.id x s)
  unfolding Recorded commit failed_outcome
  handle-Recorded x s e = rw (handle_lem x s e) (
    failed_outcome (status_of x) (w.describe x),
    refl,
    (status_of-is_terminal x).0,
    refl,
    still_unique _ (collides_not_ok base _ (not_ok w.end_time r _ (status_of-is_terminal x).1)),
  )

  recover-Recorded :
      (res : Result Exn String) (s : Session)
      → Settled (res, s)
      → Recorded (recover w r.id (res, s))
  unfolding Settled recover
  recover-Recorded (ok st) s (o, e, t, saved, unique) =
      unfold Recorded in (o, ap ok (sym e), rw e t, saved, unique)
  recover-Recorded (err x) s e = handle-Recorded x s e

-- Where the server is reached and takes the insert and every update of a run, the ids are below
-- the counter, and no two scheduled `ok` runs share source and date: run_job returns a terminal
-- status, and the committed runs are the former ones and one more, which has that status; still no
-- two scheduled `ok` runs share source and date. No failure of the browser, of the CSV or of the
-- insert leaves it at `running`.
pub run_job-Recorded :
    (w : World) (cfg : Config) (report_date : ℕ) (manual : Bool) (db : Db)
    → ((st : String) → w.takes_update st ≡ true)
    → w.connects ≡ true
    → w.starts ≡ true
    → IdsBelow db.next_run db.runs
    → is_unique db.runs ≡ true
    → let (res, db') = run_job w (some cfg) report_date manual db in
      (o : Outcome) × (res ≡ ok o.status)
      × (is_terminal o.status ≡ true)
      × (db'.runs
          ≡ db.runs
            ++ set_outcome w.end_time o
                (new_run db.next_run w.start_time source_name report_date manual)
              ∷ [])
      × (is_unique db'.runs ≡ true)
unfolding run_job run_started start_run open_session close commit new_run Recorded
run_job-Recorded w cfg report_date manual db up c st below u =
    let r = new_run db.next_run w.start_time source_name report_date manual in
    let (run_id, s) = start_run w.start_time source_name report_date manual (open_session db) in
    rw (c, st)
      (recover-Recorded w up db.runs r below u _ _
        (attempt-Settled w up db.runs r below u cfg (w.browse cfg report_date) s refl))

-- A failure of the browser: its status is recorded and returned, and nothing else is changed.
pub run_job_browse_failed :
    (w : World) (cfg : Config) (report_date : ℕ) (manual : Bool) (db : Db) (e : Exn)
    → ((st : String) → w.takes_update st ≡ true)
    → w.connects ≡ true
    → w.starts ≡ true
    → IdsBelow db.next_run db.runs
    → is_unique db.runs ≡ true
    → w.browse cfg report_date ≡ err e
    → run_job w (some cfg) report_date manual db ≡ (
      ok (status_of e),
      record db {
        runs =
            db.runs
            ++ set_outcome w.end_time
                (failed_outcome (status_of e) (w.describe e))
                (new_run db.next_run w.start_time source_name report_date manual)
              ∷ [];
        next_run = db.next_run + 1;
      },
    )
unfolding run_job run_started start_run open_session close commit recover attempt new_run
run_job_browse_failed w cfg report_date manual db e up c st below u failed =
    let r = new_run db.next_run w.start_time source_name report_date manual in
    let (run_id, s) = start_run w.start_time source_name report_date manual (open_session db) in
    rw (c, st, failed, handle_lem w up db.runs r below u e s refl) refl
