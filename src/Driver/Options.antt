-- ===== src/Driver/Options.antt =====
-- bluewave/driver.py, `build_chrome_options`: how Chromium is started.
use blue_waving.Base.{Bool, true, false, Option, none, some, List, [], ◌∷◌, ◌++◌, Text, codes}

abbrev pub default_download_dir : Text
default_download_dir = codes "/tmp/bluewave-dl"

abbrev pub chrome_args : List Text
chrome_args =
    codes "--headless=new"
    ∷ codes "--no-sandbox"
    ∷ codes "--disable-dev-shm-usage"
    ∷ codes "--disable-gpu"
    ∷ codes "--window-size=1366,900"
    ∷ codes "--lang=en-US"
    ∷ []

-- The value of a preference.
pub data Pref : Type 0 where
  text_pref : Text → Pref
  flag_pref : Bool → Pref

-- What Options is given: the arguments in their order, and the preferences.
pub record ChromeOptions : Type 0 where
  pub arguments : List Text
  pub prefs : List (Text × Pref)

-- `pid` is what os.getpid() prints.
unfoldable pub user_data_dir_or : Text → Option Text → Text
user_data_dir_or pid none = codes "/tmp/cr-profile-" ++ pid
user_data_dir_or pid (some dir) = dir

unfoldable pub build_chrome_options : Text → Text → Option Text → ChromeOptions
unfolding user_data_dir_or
build_chrome_options pid download_dir user_data_dir = record {
  arguments = chrome_args ++ (codes "--user-data-dir=" ++ user_data_dir_or pid user_data_dir) ∷ [];
  prefs =
      (codes "download.default_directory", text_pref download_dir)
      ∷ (codes "download.prompt_for_download", flag_pref false)
      ∷ (codes "download.directory_upgrade", flag_pref true)
      ∷ (codes "safebrowsing.enabled", flag_pref false)
      ∷ [];
}
