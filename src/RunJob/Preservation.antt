-- ===== src/RunJob/Preservation.antt =====
-- bluewave/orchestrator.py, run_job: its statements keep the keys of the tables.
use blue_waving.Transform.{CsvFile}
use blue_waving.RunJob.{
  status_of, default_batch_size, source_name, ingest, failed_outcome, ok_outcome, handle, Config,
  run_started, recover, finalize, attempt, after_insert, Exn, run_job, returning, close, World,
}
use blue_waving.Runs.Lifecycle.{collides_not_ok, is_unique-snoc}
use blue_waving.Runs.{
  is_terminal, store_runs, open_session, is_ok_scheduled, start_run, new_run, finalize_run, commit,
  Outcome, set_outcome, is_unique, update_run, Session, Db,
}
use blue_waving.Sink.{chunks, insert_rows}
use blue_waving.Row.{Row}
use blue_waving.Base.{
  ℕ, zero, suc, ◌+◌, String, ◌≡◌, refl, sym, inl, inr, Bool, true, false, not, ◌||◌, Option, none,
  some, List, [], ◌∷◌, ◌++◌, arith, ◌==◌, ==_refl, Bool-cases, length, member, Distinct,
  Distinct-snoc, any-append, ℤ, pos, Result, ok, err,
}
use mathlib.Core.Path.{subst}
use blue_waving.RunJob.Integrity.{
  run_ids, KnownTags, IsConsistent, IsCoherent, run_ids-snoc, IdsBelow-snoc, not_member_below,
  KnownTags-more, update_run-run_ids, update_run-IdsBelow, insert_batches_keep,
}

committed-IsCoherent :
    (run_id : ℕ) (s : Session) → IsCoherent run_id s → IsCoherent run_id (commit s)
unfolding commit
committed-IsCoherent run_id s c = record {
  committed = c.current;
  current = c.current;
  has_run = c.has_run;
}

insert_rows-IsCoherent :
    (up : ℕ → Bool) (run_id size : ℕ) (rows : List Row) (s : Session)
    → IsCoherent run_id s
    → IsCoherent run_id (insert_rows up run_id size rows s).1
unfolding insert_rows
insert_rows-IsCoherent up run_id size [] s c = c
insert_rows-IsCoherent up run_id zero (r ∷ rows) s c = c
insert_rows-IsCoherent up run_id (suc size) (r ∷ rows) s c =
    let kept =
      insert_batches_keep up 0 run_id (run_ids s.work.runs) s.work.audit
        (chunks (suc size) (r ∷ rows)) c.has_run c.current.hashes c.current.tags in
    record {
      committed = c.committed;
      current = record {
        ids_below = c.current.ids_below;
        ids_distinct = c.current.ids_distinct;
        unique = c.current.unique;
        hashes = kept.0;
        tags = kept.1;
      };
      has_run = c.has_run;
    }

update-IsCoherent :
    (run_id now id : ℕ) (o : Outcome) (s : Session)
    → is_unique (update_run id (set_outcome now o) s.work.runs) ≡ true
    → IsCoherent run_id s
    → IsCoherent run_id
        (record s { work = record s.work { runs = update_run id (set_outcome now o) s.work.runs } })
update-IsCoherent run_id now id o s u c =
    let same = sym (update_run-run_ids id now o s.work.runs) in
    record {
      committed = c.committed;
      current = record {
        ids_below = update_run-IdsBelow s.work.next_run id now o s.work.runs c.current.ids_below;
        ids_distinct = subst Distinct same c.current.ids_distinct;
        unique = u;
        hashes = c.current.hashes;
        tags = subst (λ ids. KnownTags ids s.work.audit) same c.current.tags;
      };
      has_run = subst (λ ids. member run_id ids ≡ true) same c.has_run;
    }

finalize_run-IsCoherent :
    (up : Bool) (run_id now id : ℕ) (o : Outcome) (s : Session)
    → IsCoherent run_id s
    → IsCoherent run_id (finalize_run up now id o s).1
unfolding finalize_run store_runs
finalize_run-IsCoherent up run_id now id o s c = elim (Bool-cases (is_terminal o.status)) [
  | inr bad ↦ rw bad c
  | inl good ↦ rw good (elim (Bool-cases up) [
    | inr down ↦ rw down c
    | inl reached ↦
        rw reached (elim (Bool-cases (is_unique (update_run id (set_outcome now o) s.work.runs))) [
          | inr clash ↦ rw clash c
          | inl free ↦
              rw free (committed-IsCoherent run_id _ (update-IsCoherent run_id now id o s free c))
        ])
  ])
]

returning-session :
    (status : String) (p : Result Exn (Unit {0}) × Session) → (returning status p).1 ≡ p.1
unfolding returning
returning-session status (ok u, s) = refl
returning-session status (err e, s) = refl

module _ (w : World) (run_id : ℕ) where
  finalized-IsCoherent :
      (o : Outcome) (status : String) (s : Session)
      → IsCoherent run_id s
      → IsCoherent run_id (returning status (finalize w run_id o s)).1
  unfolding finalize
  finalized-IsCoherent o status s c =
      rw (returning-session status (finalize w run_id o s))
        (finalize_run-IsCoherent (w.takes_update o.status) run_id w.end_time run_id o s c)

  after_insert-IsCoherent :
      (rows : List Row) (p : Result Exn (ℕ × ℤ) × Session)
      → IsCoherent run_id p.1
      → IsCoherent run_id (after_insert w run_id rows p).1
  unfolding after_insert
  after_insert-IsCoherent rows (err e, s) c = c
  after_insert-IsCoherent rows (ok (inserted, duplicate), s) c =
      finalized-IsCoherent (ok_outcome (length rows) inserted duplicate) "ok" s c

  attempt-IsCoherent :
      (cfg : Config) (res : Result Exn (Option CsvFile)) (s : Session)
      → IsCoherent run_id s
      → IsCoherent run_id (attempt w cfg run_id res s).1
  unfolding attempt
  attempt-IsCoherent cfg (err e) s c = c
  attempt-IsCoherent cfg (ok none) s c = finalized-IsCoherent (ok_outcome 0 0 (pos 0)) "ok" s c
  attempt-IsCoherent cfg (ok (some csv)) s c = ingested _
    where
      ingested : (res : Result Exn (List Row)) → IsCoherent run_id (ingest w run_id res s).1
      ingested (err e) = unfold ingest in c
      ingested (ok rows) =
          unfold ingest in
          after_insert-IsCoherent rows _
            (insert_rows-IsCoherent w.takes_batch run_id default_batch_size rows s c)

  recover-IsCoherent :
      (p : Result Exn String × Session)
      → IsCoherent run_id p.1
      → IsCoherent run_id (recover w run_id p).1
  unfolding recover handle
  recover-IsCoherent (ok status, s) c = c
  recover-IsCoherent (err e, s) c =
      finalized-IsCoherent (failed_outcome (status_of e) (w.describe e)) (status_of e) s c

started-IsConsistent :
    (now : ℕ) (source : String) (d : ℕ) (manual : Bool) (db : Db)
    → IsConsistent db
    → IsConsistent (record db {
      runs = db.runs ++ new_run db.next_run now source d manual ∷ [];
      next_run = db.next_run + 1;
    })
started-IsConsistent now source d manual db c =
    let r = new_run db.next_run now source d manual in
    let e : r.id ≡ db.next_run = unfold new_run in refl in
    let ids = sym (run_ids-snoc db.runs r) in
    let running : is_ok_scheduled r ≡ false = unfold new_run is_ok_scheduled in refl in
    let free = not_member_below db.next_run db.runs c.ids_below in
    record {
      ids_below = IdsBelow-snoc db.next_run db.runs r c.ids_below e;
      ids_distinct =
          subst Distinct ids (Distinct-snoc (run_ids db.runs) r.id c.ids_distinct (rw e free));
      unique = rw (is_unique-snoc db.runs r, c.unique, collides_not_ok db.runs r running) refl;
      hashes = c.hashes;
      tags =
          subst (λ l. KnownTags l db.audit) ids
            (KnownTags-more (run_ids db.runs) (r.id ∷ []) db.audit c.tags);
    }

start_run-IsCoherent :
    (now : ℕ) (source : String) (d : ℕ) (manual : Bool) (db : Db)
    → IsConsistent db
    → let (run_id, s) = start_run now source d manual (open_session db) in IsCoherent run_id s
unfolding start_run open_session commit
start_run-IsCoherent now source d manual db c =
    let after = started-IsConsistent now source d manual db c in
    let r = new_run db.next_run now source d manual in
    record {
      committed = after;
      current = after;
      has_run =
          rw
            (
              run_ids-snoc db.runs r,
              any-append (λ y. y == db.next_run) (run_ids db.runs) (r.id ∷ []),
            )
            (unfold new_run in ground (arith, ==_refl db.next_run));
    }

close-IsConsistent :
    (run_id : ℕ) (p : Result Exn String × Session)
    → IsCoherent run_id p.1
    → IsConsistent (close p).1
unfolding close
close-IsConsistent run_id (r, s) c = c.committed

-- A run keeps the keys of the schema, whatever the browser, the file and the server do, whether
-- the settings are there or not: the ids of the runs stay distinct and below the counter, a source
-- and date has one scheduled `ok` run at most, no hash is in the audit table twice, and every
-- audit row is tagged with the id of a run.
pub run_job-IsConsistent :
    (w : World) (cfg : Option Config) (report_date : ℕ) (manual : Bool) (db : Db)
    → IsConsistent db
    → IsConsistent (run_job w cfg report_date manual db).1
unfolding run_job run_started
run_job-IsConsistent w none report_date manual db c = c
run_job-IsConsistent w (some cfg) report_date manual db c =
    elim (Bool-cases (not w.connects || not w.starts)) [
      | inl away ↦ rw away c
      | inr there ↦
          let (run_id, s) =
            start_run w.start_time source_name report_date manual (open_session db) in
          let tried = attempt w cfg run_id (w.browse cfg report_date) s in
          rw there (
            close-IsConsistent run_id (recover w run_id tried) (
              recover-IsCoherent w run_id tried (
                attempt-IsCoherent w run_id cfg (w.browse cfg report_date) s
                  (start_run-IsCoherent w.start_time source_name report_date manual db c))))
    ]
