-- ===== src/Examples/Site.antt =====
-- A browser and a site to try the code on: element 0 is the Emergency Lockdown, every other selector
-- finds element 1, and a download takes until the clock shows 1500.
use blue_waving.Base.{
  ℕ, ◌+◌, ◌≤◌, ◌≡◌, Bool, true, false, not, ◌&&◌, ◌||◌, Option, none, some, List, [], ◌∷◌, select,
  any, text_eq, ltb, ◌==◌, if◌then◌else◌, Text, codes, ok,
}
use blue_waving.Exceptions.{timeout, os_error, other}
use blue_waving.Action.{Action, pure, raise, ◌>>=◌}
use blue_waving.Selectors.{
  is_denied, same_selector, login_username, report_results_first_row, report_no_results_indicator,
}
use blue_waving.Driver.{Driver, ReportOutcome}
use blue_waving.Driver.Options.{default_download_dir}
use blue_waving.Login.{reports_page_marker}

pub record Site : Type 0 where
  pub now : ℕ
  pub lockdown : Bool
  pub running : Bool
  pub profiles : List Text
  pub value : Option Text
  pub on_reports : Bool

abbrev pub fresh : Site
fresh = record {
  now = 100;
  lockdown = false;
  running = false;
  profiles = [];
  value = none;
  on_reports = false;
}

abbrev pub change : (Site → Site) → Action Site (Unit {0})
change f s = (ok tt, f s)

abbrev pub ask : {A : Type 0} → (Site → A) → Action Site A
ask f s = (ok (f s), s)

abbrev pub answer : Option ReportOutcome → Action Site ReportOutcome
answer (some r) = pure r
answer none = raise timeout

abbrev pub nothing_to_do : Action Site (Unit {0})
nothing_to_do = pure tt

abbrev pub first_profile : Text
first_profile = codes "/tmp/cr-profile-1"

abbrev pub without : Text → List Text → List Text
without dir = select (λ d. not (text_eq dir d))

-- The site takes the login, or not; its report is empty, or not.
abbrev pub browser : Bool → Bool → Driver Site
browser logs_in empty = record {
  pid = codes "7";
  download_dir = default_download_dir;
  make_profile = λ s. (ok first_profile, record s { profiles = first_profile ∷ s.profiles });
  start = λ o. change (λ s. record s { running = true });
  allow_downloads = λ dir. raise other;
  quit = change (λ s. record s { running = false });
  remove_profile = λ dir. change (λ s. record s { profiles = without dir s.profiles });
  get = λ url. nothing_to_do;
  page_source = ask (λ s. if s.on_reports then some reports_page_marker else none);
  find_element = λ sel. pure (if is_denied sel then 0 else 1);
  find_elements = λ sel. pure (
      if same_selector sel report_results_first_row
        || (same_selector sel report_no_results_indicator && empty)
      then 1 ∷ []
      else []);
  is_present = λ sel. pure (same_selector sel login_username || logs_in);
  is_clickable = λ sel. pure true;
  click_element =
      λ el. change (λ s. record s { lockdown = (el == 0) || s.lockdown; on_reports = true });
  clear = λ el. change (λ s. record s { lockdown = (el == 0) || s.lockdown });
  send_keys = λ el t. change (λ s. record s { lockdown = (el == 0) || s.lockdown });
  get_value = λ el. ask (λ s. s.value);
  select_by_visible_text = λ el t. change (λ s. record s { lockdown = (el == 0) || s.lockdown });
  js_click = λ el. change (λ s. record s { lockdown = (el == 0) || s.lockdown });
  js_set_value =
      λ el t. change (λ s. record s { lockdown = (el == 0) || s.lockdown; value = some t });
  wait = λ n test. test >>= (λ b. if b then nothing_to_do else raise timeout);
  wait_outcome = λ n test. test >>= answer;
  monotonic = ask (λ s. s.now);
  sleep = λ n. change (λ s. record s { now = s.now + n });
  current_url = pure (codes "https://blueweb/login");
  title = pure (codes "BlueWeb");
  body_text = pure (some (codes "Sign in"));
  make_screenshot_dir = raise os_error;
  write_page_source = raise os_error;
  dir_exists = pure true;
  make_dir = nothing_to_do;
  write_probe = nothing_to_do;
  unlink_probe = nothing_to_do;
  list_files = pure (codes "old.csv" ∷ []);
  unlink = λ f. raise os_error;
  target_exists = pure true;
  has_crdownload = ask (λ s. ltb s.now 1500);
}

abbrev pub Untouched : Site → Type 0
Untouched s = s.lockdown ≡ false

abbrev pub harmless : ℕ → Bool
harmless el = not (el == 0)

abbrev pub At1500 : Site → Type 0
At1500 s = 1500 ≤ s.now

-- The directory is not on the disk.
abbrev pub Removed : Text → Site → Type 0
Removed dir s = any (text_eq dir) s.profiles ≡ false
