-- ===== src/Browse/Laws.antt =====
-- The browser's part of a run: what it may touch, what it raises, and the status of a run that it fails.
use blue_waving.Transform.{CsvFile}
use blue_waving.Exceptions.{is_web_driver, Exn, RunFailure, failure, status}
use blue_waving.Browse.{with_browser, downloaded, browse_logged_in, browse}
use blue_waving.Base.{
  ℕ, String, ◌≡◌, refl, ap, Bool, true, ◌||◌, some, [], ◌∷◌, arith, str_eq, any, ok, err,
}
use blue_waving.Action.{Action, tolerate}
use blue_waving.Action.Ensures.{
  Ensures-err, Ensures, Any, Ensures-pure, Ensures-catch, Ensures-bind, Ensures-finally,
  Ensures-weaken,
}
use blue_waving.Action.Reaches.{
  Reaches, Reaches-bind, Reaches-weaken, Ensures-Reaches, Reaches-Ensures,
}
use blue_waving.Config.{Config}
use blue_waving.Datetime.{Datetime}
use blue_waving.Driver.{Driver, with_driver}
use blue_waving.Driver.Lawful.{Lawful, is_os_error, anything}
use blue_waving.Login.{default_wait_s, nav_wait_s}
use blue_waving.Login.Laws.{login_raises, login_and_navigate-Ensures}
use blue_waving.Scrape.Awaiting.{Clock}
use blue_waving.Scrape.Wiping.{scrape_raises}
use blue_waving.Scrape.Laws.{scrape_event_report_lem}
use blue_waving.Runs.{Db, is_unique}
use blue_waving.Runs.Lifecycle.{IdsBelow}
use blue_waving.RunJob.{World, run_job, status_of}
use blue_waving.RunJob.Outcomes.{run_job_browse_failed}

abbrev pub browse_raises : Exn → Bool
browse_raises e = login_raises e || scrape_raises e

-- The statuses of a run that fails in the browser.
abbrev pub is_browser_status : String → Bool
is_browser_status st =
    any (str_eq st)
      ("nav_failed" ∷ "auth_failed" ∷ "report_timeout" ∷ "download_failed" ∷ "ingest_failed" ∷ [])

status_of-is_browser_status :
    (e : Exn) → browse_raises e ≡ true → is_browser_status (status_of e) ≡ true
unfolding status_of status is_web_driver is_os_error
status_of-is_browser_status (failure RunFailure.nav_failed) h = refl
status_of-is_browser_status (failure RunFailure.auth_failed) h = refl
status_of-is_browser_status (failure RunFailure.report_timeout) h = refl
status_of-is_browser_status (failure RunFailure.download_failed) h = refl
status_of-is_browser_status (failure _) h = cc
status_of-is_browser_status _ h = refl

module _ {S : Type 0} {drv : Driver S} {P : S → Type 0} {safe : ℕ → Bool}
    (law : Lawful drv P safe) where
  tolerate-Ensures :
      {allowed : Exn → Bool} (m : Action S (Unit {0}))
      → Ensures P anything Any m
      → Ensures P allowed Any (tolerate m)
  unfolding tolerate
  tolerate-Ensures m h = Ensures-catch m _ h (λ e _. Ensures-pure tt tt)

  -- The life of the browser around a body.
  pub with_driver-Ensures :
      {A : Type 0} (body : Action S A)
      → Ensures P browse_raises Any body
      → Ensures P browse_raises Any (with_driver drv body)
  unfolding with_driver
  with_driver-Ensures body h =
      Ensures-bind _ _ (Ensures-weaken _ (λ e w. ground arith) (λ a q. q) law.make_profile)
        λ profile _.
          Ensures-bind _ _ (Ensures-weaken _ (λ e w. ground arith) (λ a q. q) (law.start _)) λ _ _.
            Ensures-finally _ _
              (Ensures-bind _ _ (tolerate-Ensures _ (law.allow_downloads _)) (λ _ _. h))
              (Ensures-bind _ _ (tolerate-Ensures _ law.quit)
                (λ _ _. tolerate-Ensures _ (law.remove_profile profile)))

  module _ {now : S → ℕ} {landed whole : S → Type 0} (clock : Clock drv P now landed whole)
      (date_of : ℕ → Datetime) (file_of : S → CsvFile) where
    downloaded_lem :
        (got : Bool) (s : S)
        → P s
        → Reaches (λ e t. P t × browse_raises e ≡ true) (λ _ t. P t) (downloaded file_of got) s
    unfolding downloaded
    downloaded_lem got s p = record { at = p }

    browse_logged_in_lem :
        (cfg : Config) (d : ℕ) (s : S)
        → P s
        → Reaches
            (λ e t. P t × browse_raises e ≡ true)
            (λ a t. P t × Any a)
            (browse_logged_in drv date_of file_of cfg d)
            s
    unfolding browse_logged_in
    browse_logged_in_lem cfg d s p =
        Reaches-bind _ _ s
          (Reaches-weaken _ s (λ e t q. (q.0, ground arith)) (λ a t q. q.0)
            (Ensures-Reaches _ s (login_and_navigate-Ensures law _ _ _ default_wait_s nav_wait_s)
              p))
          λ _ t q.
            Reaches-bind _ _ t
              (Reaches-weaken _ t (λ e u r. (r.0, ground arith)) (λ a u r. r)
                (scrape_event_report_lem law clock (date_of d) t q))
              λ got u r.
                Reaches-weaken _ u (λ e v o. o) (λ a v o. (o, tt)) (downloaded_lem got u r.0)

    -- With a driver and a clock that behave as they document: whatever the site does, the browser
    -- part of a run touches nothing but what the selectors off the denylist find, so that a state
    -- of the site which only a denylisted element can change is kept, and it raises only
    -- NavFailed, AuthFailed, ReportTimeout, DownloadFailed, an exception of Selenium or an
    -- OSError.
    pub browse-Ensures :
        (cfg : Config) (d : ℕ) → Ensures P browse_raises Any (browse drv date_of file_of cfg d)
    unfolding browse
    browse-Ensures cfg d =
        with_driver-Ensures _ (Reaches-Ensures _ (λ s p. browse_logged_in_lem cfg d s p))

    -- Under the same laws, where the database takes the run and its update, the ids are below the
    -- counter and no two scheduled `ok` runs share source and date: a run whose browser part
    -- raises returns the status of the exception, which is nav_failed, auth_failed,
    -- report_timeout, download_failed or ingest_failed.
    pub run_job_browser_lem :
        (w : World) (cfg : Config) (d : ℕ) (manual : Bool) (db : Db) (s : S)
        → P s
        → ((st : String) → w.takes_update st ≡ true)
        → w.connects ≡ true
        → w.starts ≡ true
        → IdsBelow db.next_run db.runs
        → is_unique db.runs ≡ true
        → (e : Exn) → (browse drv date_of file_of cfg d s).0 ≡ err e
        → ((run_job (with_browser drv date_of file_of w s) (some cfg) d manual db).0
            ≡ ok (status_of e))
          × (is_browser_status (status_of e) ≡ true)
    unfolding with_browser
    run_job_browser_lem w cfg d manual db s p up c st below u e failed =
        let r = run_job_browse_failed _ cfg d manual db e up c st below u failed in
        (
          ap (λ x. x.0) r,
          status_of-is_browser_status e (Ensures-err _ s e (browse-Ensures cfg d) p failed),
        )
