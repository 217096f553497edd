-- ===== src/Examples/Boot.antt =====
-- The theorems on the tables and on how the process starts, at concrete inputs.
use blue_waving.Routes.Settings.{with_passwords, post_config, ConfigReply, is_schedule, Desk, Kept}
use blue_waving.System.Restart.{submit_config-main, Restarts}
use blue_waving.Config.{load, Config, parse_keys_env, save, ConfigFile, split}
use blue_waving.Routes.Settings.Form.{submit_config}
use blue_waving.Schema.Bootstrap.{bootstrap_on_creates, bootstrap_on_again, Permits}
use blue_waving.Schema.Tables.{find_table, bootstrap_on}
use blue_waving.Web.Entry.{bind_of}
use blue_waving.Config.Store.{load-save}
use blue_waving.Web.{is_set, lift}
use blue_waving.System.Startup.{HasTables, main_serves, started, Configured}
use blue_waving.Web.App.{log_level, docs_enabled, main, Host, serves}
use blue_waving.Scheduler.{daily_job, Surroundings, Job}
use blue_waving.Schema.Creation.{ShowsTables}
use blue_waving.Base.{
  ℕ, String, ◌≡◌, refl, inl, true, Option, none, some, [], ◌∷◌, arith, str_eq, if◌then◌else◌, Text,
  codes, text_eq, strip, pos, ok,
}
use blue_waving.Routes.Listing.{bootstrap_audit_table}
use blue_waving.Examples.{mysql_server, settings, keyed}

shows : ShowsTables mysql_server
shows = record {
  column_shown = λ t d. record {
    same_name = refl;
    shown_type = inl refl;
    nullable = refl;
    in_charset = λ h. refl;
    in_collation = λ h. refl;
    counts = λ h. rw h refl;
  };
  table_charset = λ t. refl;
  table_collation = λ t. refl;
}

permits : Permits mysql_server
permits = record { audit = refl; runs = refl; commits = refl }

bootstrap_on_creates_example : (bootstrap_on mysql_server []).0.is_bootstrapped ≡ true
bootstrap_on_creates_example =
    bootstrap_on_creates mysql_server [] shows permits refl (unfold find_table in refl)

bootstrap_on_again_example :
    bootstrap_on mysql_server (bootstrap_on mysql_server []).1 ≡ bootstrap_on mysql_server []
bootstrap_on_again_example = bootstrap_on_again mysql_server [] permits

abbrev env : String → Option Text
env name =
    if str_eq name "CONFIG_ENC_KEYS"
    then some (codes "k")
    else if str_eq name "WEB_USER"
    then some (codes "op")
    else if str_eq name "WEB_PASS_HASH"
    then some (codes "h")
    else if str_eq name "WEB_ALLOW_HTTP"
    then some (codes "1")
    else none

abbrev around : Surroundings
around = record {
  knows_zone = λ z. true;
  takes_cron = λ h m. true;
  today_in = λ z. 739684;
  connects = true;
  runs = [];
}

abbrev host : Host
host = record {
  env = env;
  build_multifernet = λ keys. ok (keyed 7);
  around = around;
  server = mysql_server;
  takes_level = λ level. text_eq level (codes "info");
}

abbrev file : ConfigFile
file = save (keyed 7) settings none

ready_host : Configured host file (keyed 7) settings (codes "0.0.0.0") (pos 8080)
ready_host = record {
  environment = record {
    keys_set = unfold is_set in refl;
    user_set = unfold is_set in refl;
    hash_set = unfold is_set in refl;
    allows_http = refl;
    zone = inl refl;
  };
  keys = codes "k" ∷ [];
  parsed = unfold parse_keys_env strip in refl;
  built = refl;
  loads = load-save (keyed 7) (keyed 7) settings none (λ t. refl);
  scheduled_at = unfold is_schedule strip split in refl;
  in_zone = refl;
  cron = λ hour minute a b. refl;
  bound = unfold bind_of strip in refl;
  reached = refl;
  server = refl;
  permitted = permits;
  level = unfold log_level in refl;
  cap = omega arith;
}

main_serves_example :
    (job : Job) × (daily_job around settings ≡ ok job)
    × (main host file []
        ≡ serves
            (record {
              docs = docs_enabled none;
              keys = keyed 7;
              file = file;
              state = started host settings job [];
            })
            (codes "0.0.0.0")
            (pos 8080))
    × HasTables (started host settings job []).tables
main_serves_example =
    main_serves host file (keyed 7) settings (codes "0.0.0.0") (pos 8080) [] ready_host

abbrev desk : Desk
desk = record {
  probes = record {
    blueweb_http = λ url. true;
    mysql = λ (a : Text) (port : ℕ) (database user password : Text). ok true;
    bluewave_login = λ (url user password : Text). true;
  };
  around = around;
  server = mysql_server;
  keys = keyed 7;
}

abbrev new_install : Kept
new_install = record { file = none; sched = some none; tables = [] }

abbrev first_reply : ConfigReply
first_reply = record {
  saved = true;
  probes = ("blueweb_http", true) ∷ ("mysql", true) ∷ ("bluewave_login", true) ∷ [];
  schema = some (bootstrap_audit_table mysql_server []).0;
}

restarts : Restarts host (keyed 7) (codes "0.0.0.0") (pos 8080)
restarts = record {
  environment = ready_host.environment;
  keys = codes "k" ∷ [];
  parsed = unfold parse_keys_env strip in refl;
  built = refl;
  cron = λ hour minute a b. refl;
  bound = unfold bind_of strip in refl;
  reached = refl;
  server = refl;
  permitted = permits;
  level = unfold log_level in refl;
  late = λ zone. omega arith;
}

submit_config-main_example :
    let file' = (submit_config desk (ok (codes "op")) settings new_install).1.file in
    (existing : Option Config) × (load (keyed 7) none ≡ ok existing)
    × (cfg : Config) × (cfg ≡ with_passwords settings existing)
    × (load (keyed 7) file' ≡ ok (some cfg))
    × (job : Job) × (daily_job around cfg ≡ ok job)
    × (main host file' []
        ≡ serves
            (record {
              docs = docs_enabled none;
              keys = keyed 7;
              file = file';
              state = started host cfg job [];
            })
            (codes "0.0.0.0")
            (pos 8080))
    × HasTables (started host cfg job []).tables
submit_config-main_example =
    submit_config-main desk (ok (codes "op")) settings new_install first_reply host
      (codes "0.0.0.0") (pos 8080) [] (λ t. refl)
      (unfold submit_config post_config is_schedule split strip lift load save in refl) refl
      restarts refl
