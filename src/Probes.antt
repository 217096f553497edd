-- ===== src/Probes.antt =====
-- bluewave/probes.py: the three probes. The answers of the web server and of MySQL are parameters, and
-- details are left out.
pub mod Laws
use blue_waving.Base.{
  ℕ, Bool, true, false, not, Option, none, some, leb, if◌then◌else◌, Text, codes, text_eq, Result,
  ok, err,
}
use blue_waving.Exceptions.{Exn, database_error}
use blue_waving.Action.{Action, pure, catch, ◌>>◌}
use blue_waving.Auth.{starts_with}
use blue_waving.Driver.{Driver, with_driver}
use blue_waving.Login.{login_and_navigate}

-- From the status code of the HEAD request.
unfoldable pub probe_blueweb_http : Result Exn ℕ → Bool
probe_blueweb_http (err e) = false
probe_blueweb_http (ok code) = not (leb 500 code)

-- The row of information_schema.SCHEMATA: the default character set and collation.
unfoldable pub has_collation : Option Text → Bool
unfolding starts_with
has_collation none = false
has_collation (some co) = starts_with (codes "utf8mb4_") co

unfoldable pub is_utf8mb4 : Option Text → Bool
is_utf8mb4 none = false
is_utf8mb4 (some cs) = text_eq cs (codes "utf8mb4")

unfoldable pub accepts_schema : Option (Option Text × Option Text) → Bool
unfolding has_collation is_utf8mb4
accepts_schema none = false
accepts_schema (some (cs, co)) = if is_utf8mb4 cs then has_collation co else false

-- What `except pymysql.err.Error` turns into a failed probe.
unfoldable pub or_failed_probe : Exn → Result Exn Bool
or_failed_probe database_error = ok false
or_failed_probe e = err e

unfoldable pub probe_mysql : Result Exn (Option (Option Text × Option Text)) → Result Exn Bool
unfolding or_failed_probe accepts_schema
probe_mysql (err e) = or_failed_probe e
probe_mysql (ok row) = ok (accepts_schema row)

unfoldable pub probe_bluewave_login : {S : Type 0} → Driver S → Text → Text → Text → Action S Bool
unfolding with_driver login_and_navigate
probe_bluewave_login drv url user password =
    catch (do with_driver drv (login_and_navigate drv url user password 20 10); pure true)
      (λ e. pure false)
