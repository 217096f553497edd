-- ===== src/Routes/Trials.antt =====
-- bluewave/routes.py, test_bluewave and test_mysql: the two tests of the settings form, each with its
-- payload. The probes are parameters. A port is not negative here; a negative one is below its bound.
use blue_waving.Exceptions.{Exn}
use blue_waving.Web.{HttpError, http_exception, lift}
use blue_waving.Base.{
  ℕ, Bool, not, ◌&&◌, List, [], ◌∷◌, leb, if◌then◌else◌, every, Text, is_empty, Result, ok, err,
  ◌>>=◌,
}

pub record BlueWebTestPayload : Type 0 where
  pub blueweb_url : Text
  pub blueweb_user : Text
  pub blueweb_password : Text

pub record MysqlTestPayload : Type 0 where
  pub mysql_host : Text
  pub mysql_port : ℕ
  pub mysql_database : Text
  pub mysql_user : Text
  pub mysql_password : Text

-- `min_length=1` of each of the texts
unfoldable pub all_given : List Text → Bool
all_given = every (λ t. not (is_empty t))

unfoldable pub is_blueweb_test : BlueWebTestPayload → Bool
unfolding all_given
is_blueweb_test p = all_given (p.blueweb_url ∷ p.blueweb_user ∷ p.blueweb_password ∷ [])

unfoldable pub is_mysql_test : MysqlTestPayload → Bool
unfolding all_given
is_mysql_test p =
    all_given (p.mysql_host ∷ p.mysql_database ∷ p.mysql_user ∷ p.mysql_password ∷ [])
    && (leb 1 p.mysql_port && leb p.mysql_port 65535)

-- What the dependencies raise comes first, then a payload that is not valid.
unfoldable pub unless_invalid : Result HttpError Text → Bool → Result HttpError (Unit {0})
unless_invalid gate valid = do user ← gate; if valid then ok tt else err (http_exception 422)

-- The result "ok" or "failed", as a Boolean.
unfoldable pub test_bluewave :
    (BlueWebTestPayload → Bool) → Result HttpError Text → BlueWebTestPayload → Result HttpError Bool
unfolding unless_invalid is_blueweb_test
test_bluewave probe gate payload = do
  u ← unless_invalid gate (is_blueweb_test payload)
  ok (probe payload)

unfoldable pub test_mysql :
    (MysqlTestPayload → Result Exn Bool)
    → Result HttpError Text
    → MysqlTestPayload
    → Result HttpError Bool
unfolding unless_invalid is_mysql_test
test_mysql probe gate payload = do
  u ← unless_invalid gate (is_mysql_test payload)
  lift (probe payload)
