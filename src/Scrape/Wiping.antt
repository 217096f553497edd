-- ===== src/Scrape/Wiping.antt =====
-- bluewave/scrape.py: what a scrape may raise, and the wiping of the download directory.
use blue_waving.Base.{ℕ, ◌≡◌, refl, Bool, true, false, ◌||◌, List, [], ◌∷◌, arith, Text}
use blue_waving.Exceptions.{
  Exn, RunFailure, failure, nav_failed, report_timeout, download_failed, is_web_driver,
}
use blue_waving.Action.{Action, raise}
use blue_waving.Action.Ensures.{
  Ensures, Any, Ensures-pure, Ensures-if, Ensures-catch, Ensures-bind, Ensures-except,
  Ensures-finally, Ensures-weaken,
}
use blue_waving.Driver.{Driver}
use blue_waving.Driver.Lawful.{Lawful, is_os_error}
use blue_waving.Scrape.{unless_os_error, unlink_all, wipe_download_dir}

abbrev pub is_scrape_failure : Exn → Bool
is_scrape_failure (failure nav_failed) = true
is_scrape_failure (failure report_timeout) = true
is_scrape_failure (failure download_failed) = true
is_scrape_failure _ = false

-- What a scrape may raise.
abbrev pub scrape_raises : Exn → Bool
scrape_raises e = is_web_driver e || (is_os_error e || is_scrape_failure e)

pub web_driver_raises : (e : Exn) → is_web_driver e ≡ true → scrape_raises e ≡ true
web_driver_raises e h = rw h

pub os_error_raises : (e : Exn) → is_os_error e ≡ true → scrape_raises e ≡ true
os_error_raises e h = ground arith

pub failure_raises :
    (f : RunFailure) → is_scrape_failure (failure f) ≡ true → scrape_raises (failure f) ≡ true
failure_raises f h = ground arith

module _ {S : Type 0} {drv : Driver S} {P : S → Type 0} {safe : ℕ → Bool}
    (law : Lawful drv P safe) where
  unless_os_error-Ensures :
      {allowed : Exn → Bool} (m : Action S (Unit {0}))
      → Ensures P is_os_error Any m
      → Ensures P allowed Any (unless_os_error m)
  unfolding unless_os_error
  unless_os_error-Ensures m h =
      Ensures-catch m _ h
        (λ e w. Ensures-if (is_os_error e) _ (raise e) (λ _. Ensures-pure tt tt) (λ n. cc (n, w)))

  unlink_all-Ensures :
      {allowed : Exn → Bool} (fs : List Text) → Ensures P allowed Any (unlink_all drv fs)
  unfolding unlink_all
  unlink_all-Ensures [] = Ensures-pure tt tt
  unlink_all-Ensures (f ∷ fs) =
      Ensures-bind _ _ (unless_os_error-Ensures _ (law.unlink f)) (λ _ _. unlink_all-Ensures fs)

  pub wipe_download_dir-Ensures : Ensures P scrape_raises Any (wipe_download_dir drv)
  unfolding wipe_download_dir
  wipe_download_dir-Ensures =
      Ensures-bind _ _ (Ensures-weaken _ os_error_raises (λ a q. q) law.dir_exists) λ exists _.
        Ensures-bind _ _
          (Ensures-if exists _ _ (λ _. Ensures-pure tt tt)
            (λ _.
              Ensures-except is_os_error download_failed _ law.make_dir (failure_raises _ refl)
                os_error_raises))
          λ _ _.
            Ensures-bind _ _
              (Ensures-finally _ _
                (Ensures-except is_os_error download_failed _ law.write_probe
                  (failure_raises _ refl) os_error_raises)
                (unless_os_error-Ensures _ law.unlink_probe))
              λ _ _.
                Ensures-bind _ _ (Ensures-weaken _ os_error_raises (λ a q. q) law.list_files)
                  λ files _. unlink_all-Ensures files
