-- ===== src/Login/Cli.antt =====
-- bluewave/login.py, `save_screenshot` and `main`: one login from the command line, and its exit code.
use blue_waving.Login.{login_and_navigate, default_wait_s, nav_wait_s}
use blue_waving.Driver.{Driver, with_driver}
use blue_waving.Driver.Lawful.{is_os_error}
use blue_waving.Exceptions.{Exn, failure, status, is_web_driver}
use blue_waving.Base.{ℕ, Bool, true, false, List, [], ◌∷◌, ◌++◌, ◌==◌, if◌then◌else◌, Text, codes}
use blue_waving.Action.{Action, pure, raise, catch, ◌>>=◌, ◌>>◌}

abbrev pub default_screenshot_dir : Text
default_screenshot_dir = codes "/var/lib/bluewave-worker/screenshots"

-- os.getcwd, what `int(time.time())` prints, and the driver's save_screenshot.
pub record Camera (S : Type 0) : Type 0 where
  pub getcwd : Action S Text
  pub time : Action S Text
  pub save_png : Text → Action S (Unit {0})

-- `os.path.join` of a directory and a name that does not begin with a slash
unfoldable pub join_path : Text → Text → Text
join_path [] name = name
join_path (c ∷ []) name = c ∷ (if c == b'/' then name else b'/' ∷ name)
join_path (c ∷ d ∷ directory) name = c ∷ join_path (d ∷ directory) name

module _ {S : Type 0} (drv : Driver S) (camera : Camera S) where
  -- The directory for screenshots, or else the one the process is in.
  unfoldable pub screenshot_dir : Action S Text
  unfolding is_os_error
  screenshot_dir =
      catch (do drv.make_screenshot_dir; pure default_screenshot_dir)
        (λ e. if is_os_error e then camera.getcwd else raise e)

  -- The path, empty where the driver raises a WebDriverException.
  unfoldable pub save_screenshot : Text → Action S Text
  unfolding screenshot_dir join_path is_web_driver
  save_screenshot label = do
    directory ← screenshot_dir
    now ← camera.time
    let path = join_path directory (now ++ (codes "_" ++ (label ++ codes ".png")))
    catch (do camera.save_png path; pure path) (λ e. if is_web_driver e then pure [] else raise e)

  -- `except RunFailure`, which returns 1.
  unfoldable pub login_failed : Exn → Action S Bool
  unfolding save_screenshot status
  login_failed (failure f) = do
    path ← save_screenshot (codes "login_fail_" ++ codes (status f))
    pure false
  login_failed e = raise e

  unfoldable pub login_ended : Bool → Action S ℕ
  unfolding save_screenshot
  login_ended true = do path ← save_screenshot (codes "login_ok"); pure 0
  login_ended false = pure 1

  -- `main`: the exit code.
  unfoldable pub login_main : List Text → Action S ℕ
  unfolding with_driver login_and_navigate login_failed login_ended
  login_main (url ∷ user ∷ password ∷ []) = with_driver drv (do
    fine ←
        catch (do login_and_navigate drv url user password default_wait_s nav_wait_s; pure true)
          login_failed
    login_ended fine)
  login_main _ = pure 2
