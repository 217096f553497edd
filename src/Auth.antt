-- ===== src/Auth.antt =====
-- bluewave/auth.py: the credentials and the CSRF token. bcrypt and itsdangerous are parameters.
pub mod Laws
pub mod Admission
use blue_waving.Base.{
  ℕ, ◌*◌, String, Bool, true, false, ◌&&◌, ◌||◌, Option, none, some, List, [], ◌∷◌, ◌==◌, str_eq,
  if◌then◌else◌, any, Text, codes, text_eq, is_empty, strip, Result, ok, err, ◌>>=◌,
}
use blue_waving.Exceptions.{value_error, runtime_error, other}
use blue_waving.Config.{is_ascii}
use blue_waving.Web.{HttpError, http_exception, raised}

pub record Libraries : Type 0 where
  -- bcrypt.checkpw, `none` where it raises ValueError or TypeError
  pub checkpw : Text → Text → Option Bool
  -- the serializer of a key: a token for a time in seconds, and whether it accepts a token of an age
  -- at a time; where it does not, it raises BadSignature
  pub dumps : Text → ℕ → Text
  pub loads : Text → Text → ℕ → ℕ → Bool

pub record Credentials : Type 0 where
  pub username : Text
  pub password : Text

-- `os.environ.get(name, "")`
unfoldable pub get_or_empty : Option Text → Text
get_or_empty none = []
get_or_empty (some t) = t

-- `except (ValueError, TypeError): pw_ok = False`
unfoldable pub or_false : Option Bool → Bool
or_false none = false
or_false (some b) = b

-- `compare_digest` raises TypeError on texts beyond ASCII.
unfoldable pub compare_digest : Text → Text → Result HttpError Bool
compare_digest s t = if is_ascii s && is_ascii t then ok (text_eq s t) else err (raised other)

-- `.encode("ascii")`
unfoldable pub encode_ascii : Text → Result HttpError Text
encode_ascii t = if is_ascii t then ok t else err (raised value_error)

unfoldable pub both_ok : Bool → Text → Result HttpError Text
both_ok b username = if b then ok username else err (http_exception 401)

unfoldable pub check_credentials :
    Libraries → (String → Option Text) → Credentials → Result HttpError Text
unfolding get_or_empty or_false compare_digest encode_ascii both_ok
check_credentials lib env creds = do
  expected_hash ← encode_ascii (get_or_empty (env "WEB_PASS_HASH"))
  user_ok ← compare_digest creds.username (get_or_empty (env "WEB_USER"))
  both_ok (user_ok && or_false (lib.checkpw creds.password expected_hash)) creds.username

-- `raw.split(",", 1)[0]`
unfoldable pub before_comma : Text → Text
before_comma [] = []
before_comma (c ∷ t) = elim (c == b',') [ true ↦ [] | false ↦ c ∷ before_comma t ]

-- The key of _csrf_serializer.
unfoldable pub csrf_key : (String → Option Text) → Result HttpError Text
unfolding get_or_empty before_comma
csrf_key env =
    let first = strip (before_comma (get_or_empty (env "CONFIG_ENC_KEYS"))) in
    if is_empty first then err (raised runtime_error) else ok first

unfoldable pub issue_csrf_token : Libraries → (String → Option Text) → ℕ → Result HttpError Text
unfolding csrf_key
issue_csrf_token lib env now = do key ← csrf_key env; ok (lib.dumps key now)

abbrev pub csrf_max_age_s : ℕ
csrf_max_age_s = 8 * 60 * 60

unfoldable pub signed_by : Libraries → ℕ → Text → Text → Result HttpError (Unit {0})
signed_by lib now token key =
    if lib.loads key token csrf_max_age_s now then ok tt else err (http_exception 403)

unfoldable pub verify_csrf_token :
    Libraries → (String → Option Text) → ℕ → Option Text → Result HttpError (Unit {0})
unfolding csrf_key signed_by
verify_csrf_token lib env now none = err (http_exception 403)
verify_csrf_token lib env now (some []) = err (http_exception 403)
verify_csrf_token lib env now (some (c ∷ t)) = do key ← csrf_key env; signed_by lib now (c ∷ t) key

pub record Request : Type 0 where
  pub method : String
  pub header_token : Option Text
  pub content_type : Option Text
  pub form_token : Option Text

unfoldable pub starts_with : Text → Text → Bool
starts_with [] t = true
starts_with (c ∷ s) [] = false
starts_with (c ∷ s) (d ∷ t) = (c == d) && starts_with s t

-- `s in t`
unfoldable pub is_in : Text → Text → Bool
unfolding starts_with
is_in s [] = is_empty s
is_in s (c ∷ t) = starts_with s (c ∷ t) || is_in s t

abbrev pub changing_methods : List String
changing_methods = "POST" ∷ "PUT" ∷ "PATCH" ∷ "DELETE" ∷ []

unfoldable pub has_form : Request → Bool
unfolding get_or_empty is_in
has_form r =
    is_in (codes "application/x-www-form-urlencoded") (get_or_empty r.content_type)
    || is_in (codes "multipart/form-data") (get_or_empty r.content_type)

unfoldable pub token_from : Option Text → Request → Option Text
unfolding has_form
token_from (some t) r = some t
token_from none r =
    if any (λ m. str_eq r.method m) changing_methods && has_form r then r.form_token else none

unfoldable pub require_csrf :
    Libraries → (String → Option Text) → ℕ → Request → Result HttpError (Unit {0})
unfolding token_from verify_csrf_token
require_csrf lib env now r = verify_csrf_token lib env now (token_from r.header_token r)

-- The dependencies of a route that changes state.
unfoldable pub guard :
    Libraries → (String → Option Text) → ℕ → Credentials → Request → Result HttpError Text
unfolding check_credentials require_csrf
guard lib env now creds r = do
  username ← check_credentials lib env creds
  u ← require_csrf lib env now r
  ok username
