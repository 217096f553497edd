-- ===== src/Login.antt =====
-- bluewave/login.py: logging in and opening the Reports page.
pub mod Laws
pub mod Pages
pub mod Bounds
pub mod Cli
use blue_waving.Auth.{is_in}
use blue_waving.Base.{
  ℕ, ◌-◌, Bool, true, false, Option, none, some, List, [], ◌∷◌, ◌++◌, leb, if◌then◌else◌, length,
  take, Text, codes, is_empty, is_space,
}
use blue_waving.Exceptions.{
  Exn, failure, nav_failed, auth_failed, no_such_element, timeout, is_web_driver,
}
use blue_waving.Action.{Action, pure, raise, catch, except_raise, ◌>>=◌, ◌>>◌}
use blue_waving.Selectors.{login_username, login_password, login_submit, main_menu_reports}
use blue_waving.Driver.Lawful.{is_os_error}
use blue_waving.Driver.{Driver, find, click, type_into}

abbrev pub default_wait_s : ℕ
default_wait_s = 30

abbrev pub nav_wait_s : ℕ
nav_wait_s = 15

abbrev pub reports_page_marker : Text
reports_page_marker = codes "Choose Report:"

-- `except NoSuchElementException`, `except TimeoutException`
unfoldable pub is_no_such_element : Exn → Bool
is_no_such_element no_such_element = true
is_no_such_element _ = false

unfoldable pub is_timeout : Exn → Bool
is_timeout timeout = true
is_timeout _ = false

-- `str.split`: the words between white space, the last one first read backwards.
unfoldable pub words_from : Text → Text → List Text
words_from [] [] = []
words_from (c ∷ w) [] = (c ∷ w) ∷ []
words_from w (c ∷ t) = elim (is_space c) [
  | true ↦ (let rest = words_from [] t in if is_empty w then rest else w ∷ rest)
  | false ↦ words_from (w ++ c ∷ []) t
]

-- `" ".join`
unfoldable pub unwords : List Text → Text
unwords [] = []
unwords (w ∷ []) = w
unwords (w ∷ v ∷ vs) = w ++ b' ' ∷ unwords (v ∷ vs)

-- `_short` of a text, for a limit that is not 0
unfoldable pub short : Text → ℕ → Text
unfolding words_from unwords
short t limit =
    let text = unwords (words_from [] t) in
    if leb (length text) limit then text else take (limit - 1) text ++ codes "…"

-- What capture_page_state finds; `none` is None.
pub record PageState : Type 0 where
  pub url : Option Text
  pub title : Option Text
  pub body_excerpt : Option Text
  pub login_form_still_visible : Option Bool
  pub has_page_source : Option Bool

abbrev pub or_nothing : Option Text → Text
or_nothing none = []
or_nothing (some t) = t

unfoldable pub has_any : List ℕ → Bool
has_any [] = false
has_any (e ∷ es) = true

-- The parts of the one-line summary.
pub data Part : Type 0 where
  form_visible form_gone : Part
  at_url with_title with_body : Text → Part
  html_dumped : Part

unfoldable pub form_part : Option Bool → List Part
form_part none = []
form_part (some true) = form_visible ∷ []
form_part (some false) = form_gone ∷ []

-- `if state.get(key)`
unfoldable pub text_part : (Text → Part) → Option Text → List Part
text_part part none = []
text_part part (some []) = []
text_part part (some (c ∷ t)) = part (c ∷ t) ∷ []

unfoldable pub dump_part : Option Bool → List Part
dump_part none = []
dump_part (some true) = html_dumped ∷ []
dump_part (some false) = []

unfoldable pub state_to_message : PageState → List Part
unfolding form_part text_part dump_part
state_to_message state =
    form_part state.login_form_still_visible
    ++ (text_part at_url state.url
        ++ (text_part with_title state.title
            ++ (text_part with_body state.body_excerpt ++ dump_part state.has_page_source)))

-- `try: m except Exception: None`
unfoldable pub or_none : {S A : Type 0} → Action S A → Action S (Option A)
or_none m = catch (do a ← m; pure (some a)) (λ e. pure none)

module _ {S : Type 0} (drv : Driver S) where
  unfoldable pub dump_html : Bool → Action S (Option Bool)
  unfolding or_none
  dump_html false = pure none
  dump_html true = or_none (do drv.write_page_source; pure true)

  unfoldable pub capture_page_state : Bool → Action S PageState
  unfolding or_none short has_any dump_html
  capture_page_state save_html = do
    url ← or_none drv.current_url
    title ← or_none drv.title
    body ← or_none (do t ← drv.body_text; pure (short (or_nothing t) 250))
    form ← or_none (do els ← drv.find_elements login_username; pure (has_any els))
    saved ← dump_html save_html
    pure (record {
      url = url;
      title = title;
      body_excerpt = body;
      login_form_still_visible = form;
      has_page_source = saved;
    })

  -- Where the page's source is dumped: makedirs raises an OSError, or another exception.
  unfoldable pub can_dump : Action S Bool
  unfolding is_os_error
  can_dump =
      catch (do drv.make_screenshot_dir; pure true)
        (λ e. if is_os_error e then pure false else raise e)

  -- `except TimeoutException`: the diagnosis, and then the failure.
  unfoldable pub diagnosed : Exn → Exn → Action S (Unit {0})
  unfolding is_timeout can_dump capture_page_state
  diagnosed new e =
      if is_timeout e
      then (do save_html ← can_dump; state ← capture_page_state save_html; raise new)
      else raise e

  unfoldable pub press_enter : Action S (Unit {0})
  unfolding find
  press_enter = do pw ← find drv login_password; drv.send_keys pw (0xE007 ∷ [])

  unfoldable pub submit_otherwise : Exn → Action S (Unit {0})
  unfolding press_enter is_no_such_element is_web_driver
  submit_otherwise e =
      if is_no_such_element e then except_raise is_web_driver nav_failed press_enter else raise e

  unfoldable pub do_login_form_flow : Text → Text → ℕ → Action S (Unit {0})
  unfolding diagnosed submit_otherwise is_no_such_element type_into click
  do_login_form_flow user password login_wait = do
    catch (drv.wait login_wait (drv.is_present login_username)) (diagnosed (failure nav_failed))
    except_raise is_no_such_element nav_failed
        (do type_into drv login_username user; type_into drv login_password password)
    catch (click drv login_submit) submit_otherwise
    catch (drv.wait login_wait (drv.is_present main_menu_reports)) (diagnosed (failure auth_failed))

  -- `bool(find_elements(…))`, False where it raises a WebDriverException
  unfoldable pub already_authed : Action S Bool
  unfolding has_any is_web_driver
  already_authed =
      catch (do els ← drv.find_elements main_menu_reports; pure (has_any els))
        (λ e. if is_web_driver e then pure false else raise e)

  unfoldable pub shows_reports : Action S Bool
  unfolding is_in
  shows_reports = do source ← drv.page_source; pure (is_in reports_page_marker (or_nothing source))

  unfoldable pub login_and_navigate : Text → Text → Text → ℕ → ℕ → Action S (Unit {0})
  unfolding do_login_form_flow already_authed shows_reports is_web_driver is_timeout click
  login_and_navigate url user password login_wait nav_wait = do
    except_raise is_web_driver nav_failed (drv.get url)
    authed ← already_authed
    if authed then pure tt else do_login_form_flow user password login_wait
    except_raise is_web_driver nav_failed (click drv main_menu_reports)
    except_raise is_timeout nav_failed (drv.wait nav_wait shows_reports)
