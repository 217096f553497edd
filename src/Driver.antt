-- ===== src/Driver.antt =====
-- bluewave/driver.py: SafeDriver and the browser's life, over a WebDriver that is a parameter.
pub mod Options
pub mod Lawful
pub mod Lifecycle
use blue_waving.Base.{ℕ, Bool, true, false, Option, some, List, if◌then◌else◌, Text}
use blue_waving.Exceptions.{
  Exn, failure, denylisted_selector, web_driver, not_interactable, click_intercepted, is_web_driver,
}
use blue_waving.Action.{Action, pure, raise, catch, tolerate, finally, ◌>>=◌, ◌>>◌}
use blue_waving.Selectors.{Selector, is_denied}
use blue_waving.Driver.Options.{ChromeOptions, build_chrome_options}

-- What `_outcome` of bluewave/scrape.py returns.
pub data ReportOutcome : Type 0 where
  has_rows no_rows : ReportOutcome

-- Selenium's driver, its elements and waits, the clock, and the download directory, over the state of
-- the browser and the disk. An element is its id.
pub record Driver (S : Type 0) : Type 0 where
  -- what os.getpid() prints, and the directory that the caller gives for downloads
  pub pid : Text
  pub download_dir : Text
  -- webdriver.Chrome, execute_cdp_cmd, quit; mkdtemp and rmtree of the profile
  pub make_profile : Action S Text
  pub start : ChromeOptions → Action S (Unit {0})
  pub allow_downloads : Text → Action S (Unit {0})
  pub quit : Action S (Unit {0})
  pub remove_profile : Text → Action S (Unit {0})
  -- the driver
  pub get : Text → Action S (Unit {0})
  pub page_source : Action S (Option Text)
  pub find_element : Selector → Action S ℕ
  pub find_elements : Selector → Action S (List ℕ)
  -- `EC.presence_of_element_located` and `EC.element_to_be_clickable`
  pub is_present : Selector → Action S Bool
  pub is_clickable : Selector → Action S Bool
  -- an element
  pub click_element : ℕ → Action S (Unit {0})
  pub clear : ℕ → Action S (Unit {0})
  pub send_keys : ℕ → Text → Action S (Unit {0})
  pub get_value : ℕ → Action S (Option Text)
  pub select_by_visible_text : ℕ → Text → Action S (Unit {0})
  -- the scripts that execute_script runs on an element
  pub js_click : ℕ → Action S (Unit {0})
  pub js_set_value : ℕ → Text → Action S (Unit {0})
  -- `WebDriverWait(…, seconds).until`, for a test and for `_outcome`
  pub wait : ℕ → Action S Bool → Action S (Unit {0})
  pub wait_outcome : ℕ → Action S (Option ReportOutcome) → Action S ReportOutcome
  -- time.monotonic and time.sleep, in milliseconds
  pub monotonic : Action S ℕ
  pub sleep : ℕ → Action S (Unit {0})
  -- what a diagnosis reads: current_url, title, the text of the body; the directory for the file that
  -- gets the page's source
  pub current_url : Action S Text
  pub title : Action S Text
  pub body_text : Action S (Option Text)
  pub make_screenshot_dir : Action S (Unit {0})
  pub write_page_source : Action S (Unit {0})
  -- the download directory: whether it exists, mkdir, the probe that is written and removed, the files
  -- in it, an unlink, and the two tests of `_download_ready`
  pub dir_exists : Action S Bool
  pub make_dir : Action S (Unit {0})
  pub write_probe : Action S (Unit {0})
  pub unlink_probe : Action S (Unit {0})
  pub list_files : Action S (List Text)
  pub unlink : Text → Action S (Unit {0})
  pub target_exists : Action S Bool
  pub has_crdownload : Action S Bool

-- `except (ElementNotInteractableException, ElementClickInterceptedException)`
unfoldable pub is_rejected : Exn → Bool
is_rejected not_interactable = true
is_rejected click_intercepted = true
is_rejected _ = false

module _ {S : Type 0} (drv : Driver S) where
  unfoldable pub find : Selector → Action S ℕ
  unfolding is_denied
  find sel = if is_denied sel then raise (failure denylisted_selector) else drv.find_element sel

  -- The script, whose WebDriverException is raised as another.
  unfoldable pub click_by_script : ℕ → Exn → Action S (Unit {0})
  unfolding is_rejected is_web_driver
  click_by_script el e =
      if is_rejected e
      then catch (drv.js_click el) (λ x. raise (if is_web_driver x then web_driver else x))
      else raise e

  unfoldable pub click : Selector → Action S (Unit {0})
  unfolding find click_by_script
  click sel = do el ← find sel; catch (drv.click_element el) (click_by_script el)

  unfoldable pub type_by_script : ℕ → Text → Exn → Action S (Unit {0})
  unfolding is_rejected
  type_by_script el text e = if is_rejected e then drv.js_set_value el text else raise e

  unfoldable pub type_into : Selector → Text → Action S (Unit {0})
  unfolding find type_by_script
  type_into sel text = do
    el ← find sel
    catch (do drv.clear el; drv.send_keys el text) (type_by_script el text)

  -- build_driver around the body of its `with`
  unfoldable pub with_driver : {A : Type 0} → Action S A → Action S A
  unfolding tolerate finally build_chrome_options
  with_driver body = do
    profile ← drv.make_profile
    drv.start (build_chrome_options drv.pid drv.download_dir (some profile))
    finally (do tolerate (drv.allow_downloads drv.download_dir); body)
        (do tolerate drv.quit; tolerate (drv.remove_profile profile))
