-- ===== src/DryRun/Foretold.antt =====
-- bluewave/dryrun.py against bluewave/orchestrator.py: a dry run and the run that follows it.
use blue_waving.RunJob.Accounts.{run_job_ingests, Brings}
use blue_waving.Exceptions.{Exn}
use blue_waving.DryRun.Laws.{foretell-insert_batch, DistinctHashes}
use blue_waving.RunJob.{run_job, World}
use blue_waving.RunJob.Integrity.{IsConsistent}
use blue_waving.Transform.Laws.{transform-eq-ok}
use blue_waving.Transform.{RawRow, unless_raised}
use blue_waving.Dedup.{source_bluewave}
use blue_waving.DryRun.{
  DryRunResult, count_csv_rows, csv_preview_of, previews, without_header, preview_limit, DryWorld,
  with_rows, after_scrape, dry_run,
}
use blue_waving.Row.{Row}
use blue_waving.Runs.{Db}
use blue_waving.Config.{Config}
use blue_waving.Base.{
  ℕ, ◌+◌, String, ◌≡◌, refl, ap, ◌∙◌, inl, inr, Bool, none, some, List, leb, Bool-cases, length,
  take, Result, ok,
}

-- The dry run meets what the run meets, has its directory, and reads the run's audit table.
abbrev pub dry_world : World → Db → DryWorld
dry_world w db = record {
  mkdtemp = none;
  browse = w.browse;
  sha256_hex = w.sha256_hex;
  zone_of = w.zone_of;
  audit = some db.audit;
}

-- A file that transform takes is counted and previewed, as it was opened and read to its end.
dry_run_ok :
    (w : World) (cfg : Config) (report_date : ℕ) (db : Db) (rows : List Row)
    → Brings w cfg report_date rows
    → (total : ℕ) × (prev : List RawRow) × (dry_run (dry_world w db) (some cfg) report_date
        ≡ ok (with_rows (dry_world w db) total prev (ok rows)))
unfolding dry_run after_scrape count_csv_rows csv_preview_of unless_raised
dry_run_ok w cfg report_date db rows b =
    let records = without_header b.csv.records in
    let (tz, found, opened, whole, rest, header, matched) =
      transform-eq-ok w.sha256_hex w.zone_of source_bluewave cfg.operator_timezone b.csv rows
        b.transformed in
    (
      length records,
      previews (take preview_limit records),
      rw (b.browsed, b.transformed, opened, whole)
          (elim (Bool-cases (leb (length records) preview_limit)) [
            | inl few ↦ rw few refl
            | inr many ↦ rw many refl
          ]),
    )

-- Where a run will be served, brings rows of which no two have one hash, and meets tables whose
-- keys hold: a dry run of the date that gets its directory says "ok", it tells exactly the number
-- of rows by which the run then makes the audit table grow, and tells the rest of its rows to be
-- duplicates.
pub dry_run_foretells :
    (w : World) (cfg : Config) (report_date : ℕ) (manual : Bool) (db : Db) (rows : List Row)
    → IsConsistent db
    → Brings w cfg report_date rows
    → DistinctHashes rows
    → let db' = (run_job w (some cfg) report_date manual db).1 in
      (result : DryRunResult) × (dry_run (dry_world w db) (some cfg) report_date ≡ ok result)
      × (result.status ≡ "ok")
      × (length db'.audit ≡ length db.audit + result.would_insert)
      × (result.would_insert + result.would_skip_duplicate ≡ length rows)
unfolding with_rows
dry_run_foretells w cfg report_date manual db rows k b d =
    let (total, prev, fine) = dry_run_ok w cfg report_date db rows b in
    let (grows, all) = foretell-insert_batch db.next_run db.audit rows d in
    let filled =
      ap (λ (p : Result Exn String × Db). length p.1.audit)
        (run_job_ingests w cfg report_date manual db rows k b) in
    (with_rows (dry_world w db) total prev (ok rows), fine, refl, filled ∙ grows, all)
