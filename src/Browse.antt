-- ===== src/Browse.antt =====
-- The browser's part of bluewave/orchestrator.py, `run_job`, and of bluewave/dryrun.py: logging in,
-- and the scrape. The calendar and what the file holds are parameters.
pub mod Laws
use blue_waving.Transform.{CsvFile}
use blue_waving.Base.{ℕ, Bool, Option, none, some, if◌then◌else◌, ok}
use blue_waving.Action.{Action, ◌>>=◌, ◌>>◌}
use blue_waving.Config.{Config}
use blue_waving.Datetime.{Datetime}
use blue_waving.Driver.{Driver, with_driver}
use blue_waving.Login.{login_and_navigate, default_wait_s, nav_wait_s}
use blue_waving.Scrape.{scrape_event_report}
use blue_waving.RunJob.{World}

-- `file_of` is what the downloaded file holds. transform reads it, after it has looked the zone up, and
-- nothing acts in between.
unfoldable pub downloaded : {S : Type 0} → (S → CsvFile) → Bool → Action S (Option CsvFile)
downloaded file_of got s = (ok (if got then some (file_of s) else none), s)

module _ {S : Type 0} (drv : Driver S) (date_of : ℕ → Datetime) (file_of : S → CsvFile) where
  unfoldable pub browse_logged_in : Config → ℕ → Action S (Option CsvFile)
  unfolding downloaded login_and_navigate scrape_event_report
  browse_logged_in cfg report_date = do
    login_and_navigate drv cfg.blueweb_url cfg.blueweb_user cfg.blueweb_password default_wait_s
        nav_wait_s
    got ← scrape_event_report drv (date_of report_date)
    downloaded file_of got

  unfoldable pub browse : Config → ℕ → Action S (Option CsvFile)
  unfolding with_driver browse_logged_in
  browse cfg report_date = with_driver drv (browse_logged_in cfg report_date)

  -- The world of a run whose browser is `drv`, in the state `s`.
  unfoldable pub with_browser : World → S → World
  unfolding browse
  with_browser w s = record w { browse = λ cfg report_date. (browse cfg report_date s).0 }
