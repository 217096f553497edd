-- ===== src/Examples/Browser.antt =====
-- The theorems on the browser's part, at the site of blue_waving.Examples.Site.
use blue_waving.Base.{ℕ, ◌≡◌, refl, true, false, Option, none, some, codes, ok, err}
use blue_waving.Exceptions.{failure, auth_failed}
use blue_waving.Action.{◌>>=◌, catch, raise, Action, pure}
use blue_waving.Action.Ensures.{Ensures, Any}
use blue_waving.Action.Reaches.{Reaches}
use blue_waving.Transform.{CsvFile}
use blue_waving.Datetime.{Datetime}
use blue_waving.Runs.{is_unique}
use blue_waving.RunJob.{run_job, status_of}
use blue_waving.Driver.{with_driver}
use blue_waving.Driver.Lifecycle.{with_driver_closes}
use blue_waving.Login.{login_and_navigate}
use blue_waving.Login.Pages.{login_and_navigate_lem}
use blue_waving.Scrape.{set_value, click_csv_and_await_file, scrape_event_report}
use blue_waving.Scrape.Inputs.{set_value_lem}
use blue_waving.Scrape.Results.{scrape_event_report_empty}
use blue_waving.Scrape.Awaiting.{await_raises, click_csv_and_await_file_lem}
use blue_waving.Browse.{browse, with_browser}
use blue_waving.Browse.Laws.{browse_raises, is_browser_status, browse-Ensures, run_job_browser_lem}
use blue_waving.Examples.{noon, csv, settings, empty_db, world}
use blue_waving.Examples.Site.{Site, Removed, first_profile, fresh, browser, Untouched, At1500}
use blue_waving.Examples.SiteLaws.{
  browser-Lawful, browser-Clock, browser-Pages, browser-Table, browser-reads, browser-quits,
  browser-removes,
}

abbrev some_date : ℕ → Datetime
some_date d = noon

abbrev file_of : Site → CsvFile
file_of s = csv

refused :
    (browse (browser false false) some_date file_of settings 739684 fresh).0
    ≡ err (failure auth_failed)
unfolding browse ◌>>=◌ catch raise pure
refused = refl

brings_file :
    (browse (browser true false) some_date file_of settings 739684 fresh).0 ≡ ok (some csv)
unfolding browse ◌>>=◌ catch raise pure
brings_file = refl

empty_report : (browse (browser true true) some_date file_of settings 739684 fresh).0 ≡ ok none
unfolding browse ◌>>=◌ catch raise pure
empty_report = refl

run_job_browser_lem_example :
    ((run_job
        (with_browser (browser false false) some_date file_of (world (λ i. true) csv) fresh)
        (some settings)
        739684
        false
        empty_db).0
      ≡ ok (status_of (failure auth_failed)))
    × (is_browser_status (status_of (failure auth_failed)) ≡ true)
run_job_browser_lem_example =
    run_job_browser_lem (browser-Lawful false false) (browser-Clock false false) some_date file_of
      (world (λ i. true) csv) settings 739684 false empty_db fresh refl (λ st. refl) refl refl tt
      (unfold is_unique in refl) (failure auth_failed) refused

browse-Ensures_example :
    Ensures Untouched browse_raises
      (Any {A = Option CsvFile})
      (browse (browser true false) some_date file_of settings 739684)
browse-Ensures_example =
    browse-Ensures (browser-Lawful true false) (browser-Clock true false) some_date file_of settings
      739684

click_csv_and_await_file_lem_example :
    Reaches
      (λ e t. Untouched t × await_raises e ≡ true)
      (λ _ t. Untouched t × At1500 t)
      (click_csv_and_await_file (browser true false) 60)
      fresh
click_csv_and_await_file_lem_example =
    click_csv_and_await_file_lem (browser-Clock true false) (browser-Lawful true false) 60 fresh
      refl

scrape_event_report_empty_example :
    Reaches
      (λ e t. Unit {0})
      (λ got t. got ≡ false → true ≡ true)
      (scrape_event_report (browser true true) noon)
      fresh
scrape_event_report_empty_example = scrape_event_report_empty (browser-Table true true) noon fresh

set_value_lem_example :
    Reaches
      (λ e t. Unit {0})
      (λ _ t. t.value ≡ some (codes "03/09/2026"))
      (set_value (browser true false) 1 (codes "03/09/2026"))
      fresh
set_value_lem_example =
    set_value_lem (browser true false) (browser-reads true false) 1 (codes "03/09/2026") fresh

-- A body that fails.
abbrev failing : Action Site (Unit {0})
failing = raise (failure auth_failed)

with_driver_closes_example :
    ((with_driver (browser true false) failing fresh).1.running ≡ false)
    × Removed first_profile (with_driver (browser true false) failing fresh).1
with_driver_closes_example =
    with_driver_closes (browser true false) (λ t. t.running ≡ false) Removed
      (browser-quits true false) (browser-removes true false) first_profile failing fresh refl refl

login_and_navigate_lem_example :
    Reaches
      (λ e t. Unit {0})
      (λ _ t. t.on_reports ≡ true)
      (login_and_navigate
        (browser true false)
        (codes "https://blueweb")
        (codes "op")
        (codes "s3cret")
        30
        15)
      fresh
login_and_navigate_lem_example =
    login_and_navigate_lem (browser-Pages true false) (codes "https://blueweb") (codes "op")
      (codes "s3cret") 30 15 fresh
