-- ===== src/Login/Laws.antt =====
-- bluewave/login.py: what logging in may touch, and what it raises.
use blue_waving.Base.{ℕ, ◌≡◌, refl, Bool, true, false, ◌||◌, none, some, [], ◌∷◌, Text}
use blue_waving.Exceptions.{Exn, RunFailure, failure, nav_failed, auth_failed, is_web_driver}
use blue_waving.Action.{Action, raise, catch}
use blue_waving.Action.Ensures.{
  Ensures, Any, Ensures-pure, Ensures-raise, Ensures-if, Ensures-catch, Ensures-bind,
  Ensures-except,
}
use blue_waving.Selectors.{login_username, login_password, login_submit, main_menu_reports}
use blue_waving.Driver.{Driver, click}
use blue_waving.Driver.Lawful.{
  Lawful, anything, is_os_error, find-Ensures, click-Ensures, type_into-Ensures,
}
use blue_waving.Login.{
  or_none, dump_html, capture_page_state, can_dump, diagnosed, press_enter, submit_otherwise,
  do_login_form_flow, already_authed, shows_reports, login_and_navigate, is_no_such_element,
  is_timeout,
}

abbrev is_login_failure : Exn → Bool
is_login_failure (failure nav_failed) = true
is_login_failure (failure auth_failed) = true
is_login_failure _ = false

-- What logging in may raise: NavFailed, AuthFailed, or an exception of Selenium's.
abbrev pub login_raises : Exn → Bool
login_raises e = is_web_driver e || is_login_failure e

web_driver_raises : (e : Exn) → is_web_driver e ≡ true → login_raises e ≡ true
web_driver_raises e h = rw h

module _ {S : Type 0} {drv : Driver S} {P : S → Type 0} {safe : ℕ → Bool}
    (law : Lawful drv P safe) where
  or_none-Ensures :
      {A : Type 0} {raised allowed : Exn → Bool} (m : Action S A)
      → Ensures P raised Any m
      → Ensures P allowed Any (or_none m)
  unfolding or_none
  or_none-Ensures {A} {raised} {allowed} m h =
      Ensures-catch {raised = raised} _ _ (Ensures-bind m _ h (λ a _. Ensures-pure (some a) tt))
        (λ e _. Ensures-pure none tt)

  dump_html-Ensures : {allowed : Exn → Bool} (b : Bool) → Ensures P allowed Any (dump_html drv b)
  unfolding dump_html
  dump_html-Ensures false = Ensures-pure none tt
  dump_html-Ensures true =
      or_none-Ensures {raised = anything} _
        (Ensures-bind _ _ law.write_page_source (λ _ _. Ensures-pure true tt))

  capture_page_state-Ensures :
      {allowed : Exn → Bool} (save_html : Bool)
      → Ensures P allowed Any (capture_page_state drv save_html)
  unfolding capture_page_state
  capture_page_state-Ensures save_html =
      Ensures-bind _ _ (or_none-Ensures _ law.current_url) λ url _.
        Ensures-bind _ _ (or_none-Ensures _ law.title) λ title _.
          Ensures-bind _ _
            (or_none-Ensures _ (Ensures-bind _ _ law.body_text (λ t _. Ensures-pure _ tt)))
            λ body _.
              Ensures-bind _ _
                (or_none-Ensures _ (
                  Ensures-bind _ _ (law.find_elements login_username) (λ els _. Ensures-pure _ tt)))
                λ form _.
                  Ensures-bind _ _ (dump_html-Ensures save_html) λ saved _. Ensures-pure _ tt

  can_dump-Ensures : {allowed : Exn → Bool} → Ensures P allowed Any (can_dump drv)
  unfolding can_dump
  can_dump-Ensures =
      Ensures-catch _ _ (Ensures-bind _ _ law.make_screenshot_dir (λ _ _. Ensures-pure true tt))
        (λ e h.
          Ensures-if (is_os_error e) _ (raise e) (λ _. Ensures-pure false tt) (λ n. cc (n, h)))

  diagnosed-Ensures :
      (f : RunFailure) (e : Exn)
      → login_raises (failure f) ≡ true
      → is_web_driver e ≡ true
      → Ensures P login_raises Any (diagnosed drv (failure f) e)
  unfolding diagnosed
  diagnosed-Ensures f e hf he =
      Ensures-if _ _ _
        (λ _. Ensures-bind _ _ can_dump-Ensures λ b _.
          Ensures-bind _ _ (capture_page_state-Ensures b) λ _ _. Ensures-raise (failure f) hf)
        (λ _. Ensures-raise e (web_driver_raises e he))

  -- A wait for an element, and the diagnosis where it times out.
  wait-Ensures :
      (f : RunFailure) (n : ℕ) (test : Action S Bool)
      → login_raises (failure f) ≡ true
      → Ensures P is_web_driver Any test
      → Ensures P login_raises Any (catch (drv.wait n test) (diagnosed drv (failure f)))
  wait-Ensures f n test hf ht =
      Ensures-catch _ _ (law.wait n test ht) (λ e he. diagnosed-Ensures f e hf he)

  submit-Ensures :
      Ensures P login_raises Any (catch (click drv login_submit) (submit_otherwise drv))
  unfolding submit_otherwise press_enter
  submit-Ensures = Ensures-catch _ _ (click-Ensures law login_submit refl) λ e he.
      Ensures-if _ _ _
        (λ _.
          Ensures-except is_web_driver nav_failed (press_enter drv)
            (Ensures-bind _ _ (find-Ensures law login_password refl)
              (λ pw h. law.send_keys pw (0xE007 ∷ []) h))
            refl web_driver_raises)
        (λ _. Ensures-raise e (web_driver_raises e he))

  do_login_form_flow-Ensures :
      (user password : Text) (n : ℕ)
      → Ensures P login_raises Any (do_login_form_flow drv user password n)
  unfolding do_login_form_flow
  do_login_form_flow-Ensures user password n =
      Ensures-bind _ _ (wait-Ensures nav_failed n _ refl (law.is_present login_username)) λ _ _.
        Ensures-bind _ _
          (Ensures-except is_no_such_element nav_failed _
            (Ensures-bind _ _ (type_into-Ensures law login_username refl user)
              (λ _ _. type_into-Ensures law login_password refl password))
            refl web_driver_raises)
          λ _ _.
            Ensures-bind _ _ submit-Ensures
              λ _ _. wait-Ensures auth_failed n _ refl (law.is_present main_menu_reports)

  already_authed-Ensures : Ensures P login_raises Any (already_authed drv)
  unfolding already_authed
  already_authed-Ensures =
      Ensures-catch _ _
        (Ensures-bind _ _ (law.find_elements main_menu_reports) (λ els _. Ensures-pure _ tt))
        (λ e he.
          Ensures-if _ _ _ (λ _. Ensures-pure false tt)
            (λ _. Ensures-raise e (web_driver_raises e he)))

  pub login_and_navigate-Ensures :
      (url user password : Text) (login_wait nav_wait : ℕ)
      → Ensures P login_raises Any (login_and_navigate drv url user password login_wait nav_wait)
  unfolding login_and_navigate shows_reports
  login_and_navigate-Ensures url user password login_wait nav_wait =
      Ensures-bind _ _
        (Ensures-except is_web_driver nav_failed _ (law.get url) refl web_driver_raises)
        λ _ _. Ensures-bind _ _ already_authed-Ensures λ authed _.
          Ensures-bind _ _
            (Ensures-if authed _ _ (λ _. Ensures-pure tt tt)
              (λ _. do_login_form_flow-Ensures user password login_wait))
            λ _ _.
              Ensures-bind _ _
                (Ensures-except is_web_driver nav_failed _
                  (click-Ensures law main_menu_reports refl) refl web_driver_raises)
                λ _ _.
                  Ensures-except is_timeout nav_failed _
                    (law.wait nav_wait _
                      (Ensures-bind _ _ law.page_source (λ source _. Ensures-pure _ tt)))
                    refl web_driver_raises
