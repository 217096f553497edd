-- ===== src/RunJob/Repeats.antt =====
-- bluewave/orchestrator.py, run_job: a second scheduled run of a date.
use blue_waving.Base.{
  ℕ, String, ◌≡◌, sym, ◌∙◌, inl, inr, true, false, some, List, [], ◌∷◌, ◌++◌, arith, str_eq,
  Bool-cases, any, ok,
}
use blue_waving.Config.{Config}
use blue_waving.Runs.{
  RunRow, Db, new_run, set_outcome, is_ok_scheduled, collides, is_unique,
  has_successful_scheduled_run,
}
use blue_waving.Runs.Lifecycle.{IdsBelow, is_unique-snoc}
use blue_waving.RunJob.{World, run_job, source_name}
use blue_waving.RunJob.Outcomes.{run_job-Recorded}

success_collides :
    (rs : List RunRow) (r : RunRow)
    → is_ok_scheduled r ≡ true
    → has_successful_scheduled_run r.source r.report_date rs ≡ true
    → any (λ t. collides t r) rs ≡ true
unfolding has_successful_scheduled_run collides is_ok_scheduled
success_collides [] r h e = cc e
success_collides (t ∷ rs) r h e = ground (arith, h, e, success_collides rs r h)

not_unique :
    (rs : List RunRow) (r : RunRow)
    → has_successful_scheduled_run r.source r.report_date rs ≡ true
    → is_unique (rs ++ r ∷ []) ≡ true
    → is_ok_scheduled r ≡ false
not_unique rs r h u = elim (Bool-cases (is_ok_scheduled r)) [
  | inl good ↦
      let clash = success_collides rs r good h in
      let e = sym (is_unique-snoc rs r) ∙ u in ground (arith, clash, e)
  | inr bad ↦ bad
]

-- Where the server is reached and takes the insert and every update of a run, the ids are below
-- the counter, no two scheduled `ok` runs share source and date, and the date has a scheduled `ok`
-- run: another scheduled run of it returns a status other than `ok`.
pub run_job_repeat :
    (w : World) (cfg : Config) (report_date : ℕ) (db : Db)
    → ((s : String) → w.takes_update s ≡ true)
    → w.connects ≡ true
    → w.starts ≡ true
    → IdsBelow db.next_run db.runs
    → is_unique db.runs ≡ true
    → has_successful_scheduled_run source_name report_date db.runs ≡ true
    → (st : String) × ((run_job w (some cfg) report_date false db).0 ≡ ok st)
      × (str_eq st "ok" ≡ false)
run_job_repeat w cfg report_date db up c s below u h =
    let (o, res, t, runs, unique) = run_job-Recorded w cfg report_date false db up c s below u in
    let r =
      set_outcome w.end_time o (new_run db.next_run w.start_time source_name report_date false) in
    let bad : is_ok_scheduled r ≡ false =
      not_unique db.runs r (unfold set_outcome new_run in h) (rw (← runs) unique) in
    (o.status, res, unfold is_ok_scheduled set_outcome new_run in ground (arith, bad))
