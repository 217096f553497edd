-- ===== src/Driver/Lawful.antt =====
-- What Selenium and the system document, as far as the code relies on it, and what SafeDriver makes of
-- it: an invariant `P` that only a denylisted element can break, and the elements that are `safe`.
use blue_waving.Base.{ℕ, ◌≡◌, Bool, true, false, Option, if◌then◌else◌, Text}
use blue_waving.Exceptions.{Exn, is_web_driver, web_driver}
use blue_waving.Action.{Action, ◌>>◌}
use blue_waving.Action.Ensures.{
  Ensures, Any, Ensures-raise, Ensures-if, Ensures-catch, Ensures-bind,
}
use blue_waving.Selectors.{Selector, is_denied}
use blue_waving.Driver.Options.{ChromeOptions}
use blue_waving.Driver.{
  Driver, ReportOutcome, find, click, click_by_script, type_into, type_by_script,
}

-- `except OSError`
unfoldable pub is_os_error : Exn → Bool
is_os_error Exn.os_error = true
is_os_error _ = false

abbrev pub anything : Exn → Bool
anything e = true

abbrev pub nothing : Exn → Bool
nothing e = false

pub record Lawful {S : Type 0} (drv : Driver S) (P : S → Type 0) (safe : ℕ → Bool) : Type 0 where
  pub make_profile : Ensures P is_os_error Any drv.make_profile
  pub start : (o : ChromeOptions) → Ensures P is_web_driver Any (drv.start o)
  pub allow_downloads : (dir : Text) → Ensures P anything Any (drv.allow_downloads dir)
  pub quit : Ensures P anything Any drv.quit
  pub remove_profile : (dir : Text) → Ensures P anything Any (drv.remove_profile dir)
  pub get : (url : Text) → Ensures P is_web_driver Any (drv.get url)
  pub page_source : Ensures P is_web_driver Any drv.page_source
  pub find_element :
      (sel : Selector)
      → is_denied sel ≡ false
      → Ensures P is_web_driver (λ el. safe el ≡ true) (drv.find_element sel)
  pub find_elements : (sel : Selector) → Ensures P is_web_driver Any (drv.find_elements sel)
  pub is_present : (sel : Selector) → Ensures P is_web_driver Any (drv.is_present sel)
  pub is_clickable : (sel : Selector) → Ensures P is_web_driver Any (drv.is_clickable sel)
  pub click_element : (el : ℕ) → safe el ≡ true → Ensures P is_web_driver Any (drv.click_element el)
  pub clear : (el : ℕ) → safe el ≡ true → Ensures P is_web_driver Any (drv.clear el)
  pub send_keys :
      (el : ℕ) (t : Text) → safe el ≡ true → Ensures P is_web_driver Any (drv.send_keys el t)
  pub get_value : (el : ℕ) → Ensures P is_web_driver Any (drv.get_value el)
  pub select_by_visible_text :
      (el : ℕ) (t : Text)
      → safe el ≡ true
      → Ensures P is_web_driver Any (drv.select_by_visible_text el t)
  pub js_click : (el : ℕ) → safe el ≡ true → Ensures P is_web_driver Any (drv.js_click el)
  pub js_set_value :
      (el : ℕ) (t : Text) → safe el ≡ true → Ensures P is_web_driver Any (drv.js_set_value el t)
  pub wait :
      (n : ℕ) (test : Action S Bool)
      → Ensures P is_web_driver Any test
      → Ensures P is_web_driver Any (drv.wait n test)
  pub wait_outcome :
      (n : ℕ) (test : Action S (Option ReportOutcome))
      → Ensures P is_web_driver Any test
      → Ensures P is_web_driver Any (drv.wait_outcome n test)
  pub monotonic : Ensures P nothing Any drv.monotonic
  pub sleep : (n : ℕ) → Ensures P nothing Any (drv.sleep n)
  pub current_url : Ensures P anything Any drv.current_url
  pub title : Ensures P anything Any drv.title
  pub body_text : Ensures P anything Any drv.body_text
  pub write_page_source : Ensures P anything Any drv.write_page_source
  pub make_screenshot_dir : Ensures P is_os_error Any drv.make_screenshot_dir
  pub dir_exists : Ensures P is_os_error Any drv.dir_exists
  pub make_dir : Ensures P is_os_error Any drv.make_dir
  pub write_probe : Ensures P is_os_error Any drv.write_probe
  pub unlink_probe : Ensures P is_os_error Any drv.unlink_probe
  pub list_files : Ensures P is_os_error Any drv.list_files
  pub unlink : (name : Text) → Ensures P is_os_error Any (drv.unlink name)
  pub target_exists : Ensures P is_os_error Any drv.target_exists
  pub has_crdownload : Ensures P is_os_error Any drv.has_crdownload

module _ {S : Type 0} {drv : Driver S} {P : S → Type 0} {safe : ℕ → Bool} (law : Lawful drv P safe)
    (sel : Selector) (allowed_sel : is_denied sel ≡ false) where
  pub find-Ensures : Ensures P is_web_driver (λ el. safe el ≡ true) (find drv sel)
  unfolding find
  find-Ensures = rw allowed_sel (law.find_element sel allowed_sel)

  click_by_script-Ensures :
      (el : ℕ) (e : Exn)
      → safe el ≡ true
      → is_web_driver e ≡ true
      → Ensures P is_web_driver Any (click_by_script drv el e)
  unfolding click_by_script
  click_by_script-Ensures el e h w =
      Ensures-if _ _ _
        (λ _.
          Ensures-catch (drv.js_click el) _ (law.js_click el h)
            (λ x hx. Ensures-raise (if is_web_driver x then web_driver else x) (rw hx)))
        (λ _. Ensures-raise e w)

  pub click-Ensures : Ensures P is_web_driver Any (click drv sel)
  unfolding click
  click-Ensures = Ensures-bind (find drv sel) _ find-Ensures λ el h.
      Ensures-catch (drv.click_element el) _ (law.click_element el h)
        (λ e w. click_by_script-Ensures el e h w)

  pub type_into-Ensures : (text : Text) → Ensures P is_web_driver Any (type_into drv sel text)
  unfolding type_into
  type_into-Ensures text = Ensures-bind (find drv sel) _ find-Ensures λ el h.
      Ensures-catch (do drv.clear el; drv.send_keys el text) _
        (Ensures-bind (drv.clear el) _ (law.clear el h) (λ _ _. law.send_keys el text h))
        (λ e w.
          unfold type_by_script in
          Ensures-if _ _ _ (λ _. law.js_set_value el text h) (λ _. Ensures-raise e w))
