-- ===== src/Examples/Requests.antt =====
-- The theorems on requests, settings, the dry run and the schema, at concrete inputs.
use blue_waving.Tools.Hashpw.{hashpw_main, password_given}
use blue_waving.Auth.Admission.{guard-hashpw_main}
use blue_waving.Exceptions.{value_error, Exn}
use blue_waving.Config.{is_ascii, Config, ConfigFile, load, save}
use blue_waving.Probes.{probe_blueweb_http, probe_mysql, probe_bluewave_login}
use blue_waving.Action.{catch, ◌>>=◌, raise, pure}
use blue_waving.Base.{
  ℕ, ◌+◌, ◌≤◌, String, ◌≡◌, refl, sym, true, false, ◌&&◌, Option, none, some, List, [], ◌∷◌, ◌++◌,
  arith, leb, str_eq, if◌then◌else◌, length, Text, codes, text_eq, strip, text_eq_refl, ℤ, pos,
  Result, ok, err,
}
use blue_waving.Routes.Settings.Probed.{Outside, Tried, probes_of, post_config-Tried}
use blue_waving.Examples.Site.{Site, browser, fresh}
use blue_waving.Examples.{mysql_server, settings, keyed, busy}
use blue_waving.Routes.Settings.{Desk, Kept, ConfigReply, post_config}
use blue_waving.Routes.Listing.{bootstrap_audit_table}
use blue_waving.Web.{HttpError, lift}
use blue_waving.Auth.{
  starts_with, is_in, get_or_empty, Libraries, Credentials, Request, guard, token_from,
  issue_csrf_token,
}
use blue_waving.Auth.Laws.{Authentic, Signed, guard-eq-ok}
use blue_waving.Orchestrator.{try_enqueue}
use blue_waving.Scheduler.{zone_info, Surroundings}
use blue_waving.Routes.{
  post_run, run_date, configured, today_local, requested_date, parse_date, past_date,
}
use blue_waving.Datetime.{read_year, expect, read_field, read_day}
use blue_waving.Routes.Laws.{Enqueued, post_run-Enqueued}
use blue_waving.Routes.Settings.Laws.{Saved}
use blue_waving.Schema.{
  ColumnRow, ExpectedColumn, expected_columns, expected_charset, expected_collation, TableRow,
  validate_columns, validate, bootstrap_and_validate,
}
use blue_waving.Schema.Laws.{Usable, bootstrap_and_validate-Usable}

abbrev env : String → Option Text
env name = if str_eq name "TZ" then none else some (codes "1")

-- The hash of a password is the password, and a token is its time and its key.
abbrev libraries : Libraries
libraries = record {
  checkpw = λ p h. some (text_eq p h);
  dumps = λ (key : Text) (t : ℕ). t ∷ key;
  loads = λ (key token : Text) (max_age now : ℕ). elim token [
    | [] ↦ false
    | (t ∷ k) ↦ text_eq k key && (leb t now && leb now (t + max_age))
  ];
}

abbrev operator : Credentials
operator = record { username = codes "1"; password = codes "1" }

abbrev request : Request
request = record {
  method = "POST";
  header_token = some (5000 ∷ codes "1");
  content_type = none;
  form_token = none;
}

guard-eq-ok_example :
    (codes "1" ≡ operator.username)
    × Authentic libraries env operator
    × Signed libraries env 6000 (token_from request.header_token request)
unfolding strip
guard-eq-ok_example =
    guard-eq-ok libraries env 6000 operator request (codes "1") (unfold guard in refl)

-- The hash of an ASCII password is the password.
abbrev hashpw : Text → Result Exn Text
hashpw pw = if is_ascii pw then ok pw else err value_error

hashpw_lem : (pw h : Text) → hashpw pw ≡ ok h → (is_ascii pw ≡ true) × (pw ≡ h)
hashpw_lem pw h e = ground (arith, e)

hashpw_matches :
    (pw h : Text) → hashpw pw ≡ ok h → (is_ascii h ≡ true) × (libraries.checkpw pw h ≡ some true)
hashpw_matches pw h e =
    let (ascii_pw, same) = hashpw_lem pw h e in
    (rw (sym same) ascii_pw, rw (sym same, text_eq_refl pw) refl)

abbrev operator_env : String → Option Text
operator_env name =
    if str_eq name "WEB_PASS_HASH" then some (codes "long enough") else some (codes "1")

abbrev piped : Text
piped = codes "long enough" ++ 10 ∷ []

guard-hashpw_main_example :
    (pw : Text) × (password_given (codes "--stdin" ∷ []) piped [] [] ≡ some pw)
    × (8 ≤ length pw)
    × (guard libraries operator_env 6000 (record { username = codes "1"; password = pw }) request
        ≡ ok (codes "1"))
unfolding strip
guard-hashpw_main_example =
    guard-hashpw_main libraries operator_env hashpw (codes "--stdin" ∷ []) piped [] []
      (codes "long enough") (codes "1") (5000 ∷ codes "1") 5000 6000 request hashpw_matches
      (λ key max_age t t' g h. rw (text_eq_refl key) (ground (arith, g, h)))
      (unfold hashpw_main in refl) refl refl refl (unfold issue_csrf_token in refl) refl
      (omega arith) (omega arith) (unfold token_from in refl)

abbrev site : Surroundings
site = record {
  knows_zone = λ z. text_eq z (codes "UTC");
  takes_cron = λ (h m : ℤ). true;
  today_in = λ z. 739684;
  connects = true;
  runs = [];
}

abbrev stored : ConfigFile
stored = save (keyed 7) settings none

abbrev gate : Result HttpError Text
gate = ok (codes "1")

accepted_run :
    (post_run gate site (keyed 7) stored (ok (pos 365)) (some (codes "2026-03-01")) busy).0
    ≡ ok (739676, 2)
unfolding post_run load save run_date configured today_local lift zone_info requested_date
    parse_date read_year expect read_field read_day past_date try_enqueue
accepted_run = refl

post_run-Enqueued_example :
    ((user : Text) × (gate ≡ ok user))
    × Enqueued site
        (keyed 7)
        stored
        (ok (pos 365))
        busy
        (post_run gate site (keyed 7) stored (ok (pos 365)) (some (codes "2026-03-01")) busy).1
        739676
        2
post_run-Enqueued_example =
    post_run-Enqueued gate site (keyed 7) stored (ok (pos 365)) (some (codes "2026-03-01")) busy
      739676 2 accepted_run

abbrev outside : Outside Site
outside = record {
  http = λ url. ok 200;
  schemata = λ (host : Text) (port : ℕ) (database user password : Text).
      ok (some (some (codes "utf8mb4"), some (codes "utf8mb4_general_ci")));
  driver = browser true true;
  site = fresh;
}

-- The form leaves both passwords as they are.
abbrev form : Config
form = record settings {
  blueweb_password = [];
  mysql_password = [];
  schedule_local = codes "02:30";
}

abbrev desk : Desk
desk = record { probes = probes_of outside; around = site; server = mysql_server; keys = keyed 7 }

abbrev before : Kept
before = record { file = stored; sched = some none; tables = [] }

abbrev saved_reply : ConfigReply
saved_reply = record {
  saved = true;
  probes = ("blueweb_http", true) ∷ ("mysql", true) ∷ ("bluewave_login", true) ∷ [];
  schema = some (bootstrap_audit_table mysql_server []).0;
}

post_config-Tried_example :
    (s : Saved desk gate form before (post_config desk gate form before).1 saved_reply) × Tried
      outside s.cfg
unfolding lift probes_of probe_blueweb_http probe_mysql probe_bluewave_login catch ◌>>=◌ raise pure
post_config-Tried_example =
    post_config-Tried outside desk gate form before saved_reply refl (λ t. refl)
      (unfold post_config load save in refl) refl

abbrev column_row : ExpectedColumn → ColumnRow
column_row e = record {
  name = e.name;
  column_type = e.column_type;
  is_nullable = e.is_nullable;
  character_set = some expected_charset;
  collation = some expected_collation;
  extra = some e.extra;
}

abbrev column_rows : List ExpectedColumn → List ColumnRow
column_rows [] = []
column_rows (e ∷ es) = column_row e ∷ column_rows es

no_diffs : validate_columns (column_rows expected_columns) ≡ []
unfolding validate_columns strip starts_with is_in get_or_empty
no_diffs = refl

abbrev table : TableRow
table = record { collation = some expected_collation; character_set = some expected_charset }

bootstrap_ok :
    (bootstrap_and_validate none
      (validate (some (column_rows expected_columns, some table)))).is_bootstrapped
    ≡ true
unfolding bootstrap_and_validate validate
bootstrap_ok = rw no_diffs

bootstrap_and_validate-Usable_example :
    Usable none (some (column_rows expected_columns, some table))
bootstrap_and_validate-Usable_example =
    bootstrap_and_validate-Usable none (some (column_rows expected_columns, some table))
      bootstrap_ok
