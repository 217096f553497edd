-- ===== src/System/Startup.antt =====
-- bluewave/web.py, main, down to the scheduler and the queue: what the process starts with.
use blue_waving.Exceptions.{Exn}
use blue_waving.Web.{EnvError, validate_env, validate_env_iff, Environment}
use blue_waving.Routes.Settings.Laws.{is_schedule-daily_job}
use blue_waving.Web.App.{
  docs_enabled, log_level, App, serves, listen, serve, app_of, start_if, with_store, create_app,
  main, Host,
}
use blue_waving.Scheduler.{
  bootstrap_audit_table, daily_job, Started, after_register, registered, register_daily, start_with,
  start, Job, catchup_or_keep, Surroundings, boot_catchup,
}
use mathlib.Core.Path.{subst}
use blue_waving.Schema.Tables.{Server, Table, find_table, audit_table, runs_table, bootstrap_on}
use blue_waving.Schema.Bootstrap.{Permits, bootstrap_on_makes}
use blue_waving.Web.Entry.{enforce_env_or_exit, bind_of}
use blue_waving.Orchestrator.{Worker, wake_if, init}
use blue_waving.Orchestrator.Missing.{catchup_missing_lem}
use blue_waving.Orchestrator.Catchup.{scheduled, is_fresh}
use blue_waving.Orchestrator.Window.{ascending}
use blue_waving.Runs.{find_ingested_dates}
use blue_waving.Routes.Settings.{is_schedule}
use blue_waving.Config.{load, parse_keys_env, MultiFernet, ConfigFile, Config}
use blue_waving.Base.{
  ℕ, ◌-◌, ◌≤◌, ◌<◌, ◌≡◌, refl, sym, ap, Bool, true, false, Option, none, some, List, [], ◌∷◌,
  if◌then◌else◌, select, Text, ℤ, pos, Result, ok, err, ◌>>=◌, bind-eq-ok,
}

-- The process finds its keys, settings that load under them and that the form has accepted, an
-- address to listen at, a log level that uvicorn knows, and its database, where it may create tables.
pub record Configured (h : Host) (file : ConfigFile) (mf : MultiFernet) (cfg : Config) (host : Text)
    (port : ℤ) : Type 0 where
  pub environment : Environment h.env
  pub keys : List Text
  pub parsed : parse_keys_env (h.env "CONFIG_ENC_KEYS") ≡ ok keys
  pub built : h.build_multifernet keys ≡ ok mf
  pub loads : load mf file ≡ ok (some cfg)
  pub scheduled_at : is_schedule cfg.schedule_local ≡ true
  pub in_zone : h.around.knows_zone cfg.operator_timezone ≡ true
  pub cron :
      (hour minute : ℕ)
      → hour ≤ 23
      → minute ≤ 59
      → h.around.takes_cron (pos hour) (pos minute) ≡ true
  pub bound : bind_of (h.env "WEB_BIND") ≡ ok (host, port)
  pub reached : h.around.connects ≡ true
  pub server : h.server.connects ≡ true
  pub permitted : Permits h.server
  pub level : h.takes_level (log_level (h.env "LOG_LEVEL")) ≡ true
  pub cap : cfg.catch_up_cap_days < h.around.today_in cfg.operator_timezone

-- The dates of the window that have no `ok` or `skipped` run.
abbrev pub unserved : Host → Config → List ℕ
unserved h cfg =
    let since = h.around.today_in cfg.operator_timezone - cfg.catch_up_cap_days in
    select (is_fresh (find_ingested_dates "Bluewave" since h.around.runs) [] none)
      (ascending since cfg.catch_up_cap_days)

boot_catchup_lem :
    (w : Surroundings) (cfg : Config)
    → w.knows_zone cfg.operator_timezone ≡ true
    → w.connects ≡ true
    → cfg.catch_up_cap_days < w.today_in cfg.operator_timezone
    → let since = w.today_in cfg.operator_timezone - cfg.catch_up_cap_days in
      let fresh =
        select
          (is_fresh (find_ingested_dates "Bluewave" since w.runs) [] none)
          (ascending since cfg.catch_up_cap_days) in
      boot_catchup w cfg init ≡ wake_if fresh (record init { queue = scheduled fresh })
unfolding boot_catchup init
boot_catchup_lem w cfg zone reached cap =
    rw
      (
        zone,
        reached,
        catchup_missing_lem w.runs cfg (w.today_in cfg.operator_timezone) cfg.catch_up_cap_days
            (record { queue = []; in_flight = none; worker = Worker.absent; shut_down = false })
            cap,
      )
      (unfold catchup_or_keep in refl)

-- The scheduler and the queue with which a configured process starts.
abbrev pub started : Host → Config → Job → List Table → Started
started h cfg job ts = record {
  sched = some (some job);
  queue = wake_if (unserved h cfg) (record init { queue = scheduled (unserved h cfg) });
  tables = bootstrap_audit_table h.server ts;
}

-- Both tables.
abbrev pub HasTables : List Table → Type 0
HasTables ts =
    ((t : Table) × (find_table audit_table ts ≡ some t))
    × ((u : Table) × (find_table runs_table ts ≡ some u))

bootstrapped :
    (server : Server) (ts : List Table)
    → server.connects ≡ true
    → Permits server
    → HasTables (bootstrap_audit_table server ts)
unfolding bootstrap_audit_table
bootstrapped server ts c p =
    let e : bootstrap_audit_table server ts ≡ (bootstrap_on server ts).1 =
      ap (λ b. if b then (bootstrap_on server ts).1 else ts) c in
    subst HasTables (sym e) (bootstrap_on_makes server ts p)

start_lem :
    (h : Host) (file : ConfigFile) (mf : MultiFernet) (cfg : Config) (host : Text) (port : ℤ)
    (ts : List Table) (job : Job)
    → Configured h file mf cfg host port
    → daily_job h.around cfg ≡ ok job
    → start h.around h.server mf file init ts ≡ (ok tt, started h cfg job ts)
unfolding start start_with register_daily registered after_register
start_lem h file mf cfg host port ts job c j =
    rw (c.loads, j, boot_catchup_lem h.around cfg c.in_zone c.reached c.cap) refl

-- A process that finds its keys, settings that load and that the form has accepted, an address to
-- listen at, a log level that uvicorn knows, and its database, where it may create tables, with a
-- cap below the ordinal of today: it serves there, with the daily job of the settings registered,
-- with both tables there, and with exactly those dates of the window queued, oldest first and as
-- scheduled runs, that have no `ok` or `skipped` run.
pub main_serves :
    (h : Host) (file : ConfigFile) (mf : MultiFernet) (cfg : Config) (host : Text) (port : ℤ)
    (ts : List Table)
    → Configured h file mf cfg host port
    → (job : Job) × (daily_job h.around cfg ≡ ok job)
      × (main h file ts
          ≡ serves
              (record {
                docs = docs_enabled (h.env "LOG_LEVEL");
                keys = mf;
                file = file;
                state = started h cfg job ts;
              })
              host
              port)
      × HasTables (started h cfg job ts).tables
unfolding main create_app with_store start_if app_of serve listen enforce_env_or_exit
main_serves h file mf cfg host port ts c =
    let (job, j) = is_schedule-daily_job h.around cfg c.cron c.scheduled_at c.in_zone in
    let tables = bootstrapped h.server ts c.server c.permitted in
    (
      job,
      j,
      rw
          (
            (validate_env_iff h.env).1 c.environment,
            c.parsed,
            c.built,
            start_lem h file mf cfg host port ts job c j,
            c.bound,
            c.level,
          )
          refl,
      tables,
    )

listen-serves :
    (takes : Bool) (app app' : App) (r : Result Exn (Text × ℤ)) (host : Text) (port : ℤ)
    → listen takes app' r ≡ serves app host port
    → app' ≡ app
unfolding listen
listen-serves takes app app' (err e) host port h = cc h
listen-serves true app app' (ok (a, b)) host port h = cc h
listen-serves false app app' (ok (a, b)) host port h = cc h

serve-serves :
    (takes : Bool) (bind : Option Text) (r : Result Exn App) (app : App) (host : Text) (port : ℤ)
    → serve takes bind r ≡ serves app host port
    → r ≡ ok app
unfolding serve
serve-serves takes bind (err e) app host port h = cc h
serve-serves takes bind (ok app') app host port h =
    ap ok (listen-serves takes app app' (bind_of bind) host port h)

app_of-keys :
    (h : Host) (mf : MultiFernet) (file : ConfigFile) (r : Result Exn (Unit {0}) × Started)
    (app : App)
    → app_of h mf file r ≡ ok app
    → mf ≡ app.keys
unfolding app_of
app_of-keys h mf file (err e, s) app q = cc q
app_of-keys h mf file (ok u, s) app q = ap keys_under q
  where
    keys_under : Result Exn App → MultiFernet
    keys_under (ok a) = a.keys
    keys_under (err e) = mf

with_store-keys :
    (h : Host) (r : Result Exn MultiFernet) (file : ConfigFile) (ts : List Table) (app : App)
    → (with_store h true r file ts).0 ≡ ok app
    → r ≡ ok app.keys
unfolding with_store
with_store-keys h (err e) file ts app q = cc q
with_store-keys h (ok mf) file ts app q = ap ok (app_of-keys h mf file _ app q)

-- A process that serves has passed the check of its environment, and its keys were parsed.
pub main_needs :
    (h : Host) (file : ConfigFile) (ts : List Table) (app : App) (host : Text) (port : ℤ)
    → main h file ts ≡ serves app host port
    → Environment h.env
      × (keys : List Text) × (parse_keys_env (h.env "CONFIG_ENC_KEYS") ≡ ok keys)
      × (h.build_multifernet keys ≡ ok app.keys)
unfolding main enforce_env_or_exit
main_needs h file ts app host port e = passed (validate_env h.env) refl
  where
    passed :
        (es : List EnvError)
        → validate_env h.env ≡ es
        → Environment h.env
          × (keys : List Text) × (parse_keys_env (h.env "CONFIG_ENC_KEYS") ≡ ok keys)
          × (h.build_multifernet keys ≡ ok app.keys)
    passed [] valid =
        let made =
          serve-serves (h.takes_level (log_level (h.env "LOG_LEVEL"))) (h.env "WEB_BIND")
            (create_app h true file ts).0 app host port (rw valid at e) in
        let r =
          with_store-keys h (parse_keys_env (h.env "CONFIG_ENC_KEYS") >>= h.build_multifernet) file
            ts app (unfold create_app in made) in
        let (keys, parsed, built) =
          bind-eq-ok (parse_keys_env (h.env "CONFIG_ENC_KEYS")) h.build_multifernet r in
        ((validate_env_iff h.env).0 valid, keys, parsed, built)
    passed (x ∷ xs) wrong = cc (rw wrong at e)
