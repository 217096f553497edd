-- ===== src/System/Restart.antt =====
-- bluewave/routes.py, post_config, with bluewave/web.py, main: settings that were saved, at the next
-- start of the process.
use blue_waving.System.Startup.{HasTables, main_serves, Configured, started}
use blue_waving.Scheduler.{Surroundings, daily_job, Job}
use blue_waving.Routes.Settings.Form.{submit_config-Accepted, submit_config}
use blue_waving.Web.App.{docs_enabled, log_level, main, Host, serves}
use blue_waving.Config.{load, parse_keys_env, Config, MultiFernet}
use blue_waving.Web.Entry.{bind_of}
use blue_waving.Config.Store.{Reads}
use blue_waving.Schema.Bootstrap.{Permits}
use blue_waving.Routes.Settings.{with_passwords, ConfigReply, Desk, Kept}
use blue_waving.Web.{Environment, HttpError}
use blue_waving.Base.{
  ℕ, ◌≤◌, ◌<◌, ◌≡◌, ap, ◌∙◌, true, Option, some, List, arith, Text, ℤ, pos, Result, ok,
}
use blue_waving.Schema.Tables.{Table}

-- What the next start needs besides the settings: its environment with the same keys, an address to
-- listen at, a log level that uvicorn knows, and its database, where it may create tables, on a day after
-- the longest window.
pub record Restarts (h : Host) (mf : MultiFernet) (host : Text) (port : ℤ) : Type 0 where
  pub environment : Environment h.env
  pub keys : List Text
  pub parsed : parse_keys_env (h.env "CONFIG_ENC_KEYS") ≡ ok keys
  pub built : h.build_multifernet keys ≡ ok mf
  pub cron :
      (hour minute : ℕ)
      → hour ≤ 23
      → minute ≤ 59
      → h.around.takes_cron (pos hour) (pos minute) ≡ true
  pub bound : bind_of (h.env "WEB_BIND") ≡ ok (host, port)
  pub reached : h.around.connects ≡ true
  pub server : h.server.connects ≡ true
  pub permitted : Permits h.server
  pub level : h.takes_level (log_level (h.env "LOG_LEVEL")) ≡ true
  pub late : (zone : Text) → 90 < h.around.today_in zone

-- With a store that decrypts what it encrypts: after a submitted form is answered as saved, a
-- process that starts on the file which it left, with its keys, an address, a known log level and
-- its database, serves with the settings of the payload, where it had no password with the one
-- that was stored, with their daily job registered, with both tables there, and with the dates of
-- their window queued that have no `ok` or `skipped` run.
pub submit_config-main :
    (desk : Desk) (gate : Result HttpError Text) (payload : Config) (k : Kept) (reply : ConfigReply)
    (h : Host) (host : Text) (port : ℤ) (ts : List Table)
    → Reads desk.keys desk.keys
    → (submit_config desk gate payload k).0 ≡ ok reply
    → reply.saved ≡ true
    → Restarts h desk.keys host port
    → h.around ≡ desk.around
    → let file = (submit_config desk gate payload k).1.file in
      (existing : Option Config) × (load desk.keys k.file ≡ ok existing)
      × (cfg : Config) × (cfg ≡ with_passwords payload existing)
      × (load desk.keys file ≡ ok (some cfg))
      × (job : Job) × (daily_job h.around cfg ≡ ok job)
      × (main h file ts
          ≡ serves
              (record {
                docs = docs_enabled (h.env "LOG_LEVEL");
                keys = desk.keys;
                file = file;
                state = started h cfg job ts;
              })
              host
              port)
      × HasTables (started h cfg job ts).tables
submit_config-main desk gate payload k reply h host port ts reads e saved r same =
    let (existing, stored, cfg, is_payload, loads, a) =
      submit_config-Accepted desk gate payload k reply reads e saved in
    let file = (submit_config desk gate payload k).1.file in
    let zone : h.around.knows_zone cfg.operator_timezone ≡ true =
      ap (λ (w : Surroundings). w.knows_zone cfg.operator_timezone) same ∙ a.zone in
    let c : Configured h file desk.keys cfg host port = record {
      environment = r.environment;
      keys = r.keys;
      parsed = r.parsed;
      built = r.built;
      loads = loads;
      scheduled_at = a.schedule;
      in_zone = zone;
      cron = r.cron;
      bound = r.bound;
      reached = r.reached;
      server = r.server;
      permitted = r.permitted;
      level = r.level;
      cap = omega (arith, a.cap.1, r.late cfg.operator_timezone);
    } in
    let (job, j, runs, tables) = main_serves h file desk.keys cfg host port ts c in
    (existing, stored, cfg, is_payload, loads, job, j, runs, tables)
