-- ===== src/Scrape.antt =====
-- bluewave/scrape.py: from the Reports page to the downloaded file. The directory's files and the clock
-- are those of the driver; times are in milliseconds.
pub mod Laws
pub mod Wiping
pub mod Awaiting
pub mod Inputs
pub mod Results
use blue_waving.Base.{
  ℕ, zero, suc, ◌+◌, ◌-◌, ◌*◌, Bool, true, false, not, Option, none, some, List, [], ◌∷◌, ltb,
  if◌then◌else◌, Text, codes, text_eq,
}
use blue_waving.Exceptions.{
  failure, nav_failed, report_timeout, download_failed, out_of_fuel, is_web_driver,
}
use blue_waving.Action.{Action, pure, raise, catch, finally, except_raise, ◌>>=◌, ◌>>◌}
use blue_waving.Selectors.{
  Selector, report_type_dropdown, start_date_input, end_date_input, get_report_button,
  csv_export_button, report_results_first_row, report_no_results_indicator,
}
use blue_waving.Datetime.{Datetime, strftime_date}
use blue_waving.Driver.Lawful.{is_os_error}
use blue_waving.Driver.{Driver, ReportOutcome, has_rows, no_rows, find, click}
use blue_waving.Login.{is_no_such_element, is_timeout, has_any}

abbrev pub csv_filename : Text
csv_filename = codes "BlueWeb - Reports.csv"

abbrev pub report_wait_s : ℕ
report_wait_s = 60

abbrev pub download_wait_s : ℕ
download_wait_s = 60

abbrev pub nav_wait_s : ℕ
nav_wait_s = 30

abbrev pub event_report_label : Text
event_report_label = codes "Event"

unfoldable pub format_date_for_blueweb : Datetime → Text
unfolding strftime_date
format_date_for_blueweb d = strftime_date d

-- `current != value`, where the attribute may be None
unfoldable pub holds : Option Text → Text → Bool
holds none value = false
holds (some t) value = text_eq t value

-- `except OSError: pass` and `except OSError: log.warning(…)`
unfoldable pub unless_os_error : {S : Type 0} → Action S (Unit {0}) → Action S (Unit {0})
unfolding is_os_error
unless_os_error m = catch m (λ e. if is_os_error e then pure tt else raise e)

module _ {S : Type 0} (drv : Driver S) where
  unfoldable pub select_event_report : ℕ → Action S (Unit {0})
  unfolding is_timeout is_web_driver find
  select_event_report wait_s = do
    except_raise is_timeout nav_failed (drv.wait wait_s (drv.is_clickable report_type_dropdown))
    except_raise is_web_driver nav_failed
        (do el ← find drv report_type_dropdown; drv.select_by_visible_text el event_report_label)

  -- `clear` and `send_keys`, where the script did not set the value
  unfoldable pub type_value : ℕ → Text → Action S (Option Text)
  unfolding is_web_driver
  type_value el value =
      catch (do drv.clear el; drv.send_keys el value; drv.sleep 200; drv.get_value el)
        (λ e. if is_web_driver e then pure none else raise e)

  unfoldable pub fall_back : ℕ → Text → Action S (Unit {0})
  unfolding type_value holds
  fall_back el value = do
    current ← type_value el value
    if holds current value then pure tt else raise (failure nav_failed)

  unfoldable pub set_value : ℕ → Text → Action S (Unit {0})
  unfolding holds fall_back
  set_value el value = do
    drv.js_set_value el value
    drv.sleep 300
    current ← drv.get_value el
    if holds current value then pure tt else fall_back el value

  unfoldable pub set_one_date_input : Selector → Text → Action S (Unit {0})
  unfolding find set_value
  set_one_date_input sel value = do el ← find drv sel; set_value el value

  unfoldable pub set_date_range : Datetime → Action S (Unit {0})
  unfolding format_date_for_blueweb set_one_date_input is_no_such_element
  set_date_range report_date =
      let value = format_date_for_blueweb report_date in
      except_raise is_no_such_element nav_failed
        (do set_one_date_input start_date_input value; set_one_date_input end_date_input value)

  -- `if no_rows_cells`
  unfoldable pub read_cells : Action S (Option ReportOutcome)
  unfolding has_any
  read_cells = do
    cells ← drv.find_elements report_no_results_indicator
    pure (some (if has_any cells then no_rows else has_rows))

  -- `_outcome`
  unfoldable pub outcome : Action S (Option ReportOutcome)
  unfolding has_any read_cells
  outcome = do
    rows ← drv.find_elements report_results_first_row
    if has_any rows then read_cells else pure none

  unfoldable pub click_get_report_and_wait : ℕ → Action S ReportOutcome
  unfolding outcome click is_no_such_element is_timeout
  click_get_report_and_wait wait_s = do
    except_raise is_no_such_element nav_failed (click drv get_report_button)
    except_raise is_timeout report_timeout (drv.wait_outcome wait_s outcome)

  unfoldable pub unlink_all : List Text → Action S (Unit {0})
  unfolding unless_os_error
  unlink_all [] = pure tt
  unlink_all (f ∷ fs) = do unless_os_error (drv.unlink f); unlink_all fs

  unfoldable pub wipe_download_dir : Action S (Unit {0})
  unfolding is_os_error finally unless_os_error unlink_all
  wipe_download_dir = do
    exists ← drv.dir_exists
    if exists then pure tt else except_raise is_os_error download_failed drv.make_dir
    finally (except_raise is_os_error download_failed drv.write_probe)
        (unless_os_error drv.unlink_probe)
    files ← drv.list_files
    unlink_all files

  -- Whether the file is there and whole.
  unfoldable pub download_ready : Action S Bool
  download_ready = do
    exists ← drv.target_exists
    if exists then (do partial ← drv.has_crdownload; pure (not partial)) else pure false

  -- The loop's body, before `rest`.
  unfoldable pub poll : Action S (Unit {0}) → Action S (Unit {0})
  unfolding download_ready
  poll rest = do ready ← download_ready; if ready then pure tt else (do drv.sleep 500; rest)

  -- `while time.monotonic() < deadline`
  unfoldable pub await_file : ℕ → ℕ → Action S (Unit {0})
  unfolding poll
  await_file zero deadline = raise out_of_fuel
  await_file (suc fuel) deadline =
      let rest = await_file fuel deadline in
      do
        now ← drv.monotonic
        if ltb now deadline then poll rest else raise (failure download_failed)

  unfoldable pub click_csv_and_await_file : ℕ → Action S (Unit {0})
  unfolding click is_no_such_element await_file
  click_csv_and_await_file timeout_s = do
    except_raise is_no_such_element download_failed (click drv csv_export_button)
    now ← drv.monotonic
    await_file (suc (2 * timeout_s)) (now + timeout_s * 1000)

  -- `if outcome == _RESULT_NO_ROWS: return None`
  unfoldable pub download_unless_empty : ReportOutcome → Action S Bool
  unfolding click_csv_and_await_file
  download_unless_empty no_rows = pure false
  download_unless_empty has_rows = do click_csv_and_await_file download_wait_s; pure true

  -- Whether a file was downloaded; its path is that of CSV_FILENAME in the directory.
  unfoldable pub scrape_event_report : Datetime → Action S Bool
  unfolding wipe_download_dir select_event_report set_date_range click_get_report_and_wait
      download_unless_empty
  scrape_event_report report_date = do
    wipe_download_dir
    select_event_report nav_wait_s
    set_date_range report_date
    result ← click_get_report_and_wait report_wait_s
    download_unless_empty result
