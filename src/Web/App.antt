-- ===== src/Web/App.antt =====
-- bluewave/web.py: create_app and main. The injected arguments of tests are left out: the app makes its
-- own store, orchestrator and scheduler. A new file of settings has no row.
use blue_waving.Schema.Tables.{Server, Table}
use blue_waving.Scheduler.{Surroundings, Started, start}
use blue_waving.Config.{ConfigFile, parse_keys_env, MultiFernet}
use blue_waving.Web.Entry.{enforce_env_or_exit, bind_of}
use blue_waving.ColumnTypes.{lower}
use blue_waving.Exceptions.{Exn, other}
use blue_waving.Base.{
  ℕ, ◌-◌, String, Bool, true, false, ◌&&◌, Option, none, some, List, [], ◌∷◌, leb, if◌then◌else◌,
  Text, codes, text_eq, ℤ, Result, ok, err, ◌>>=◌,
}
use blue_waving.Orchestrator.{init}

-- `.upper()` in ASCII
unfoldable pub upper : Text → Text
upper [] = []
upper (c ∷ t) = (if leb 97 c && leb c 122 then c - 32 else c) ∷ upper t

-- The log level for uvicorn; `lower` is that of ASCII.
unfoldable pub log_level : Option Text → Text
unfolding lower
log_level none = codes "info"
log_level (some level) = lower level

-- LOG_LEVEL, with its default INFO
unfoldable pub docs_enabled : Option Text → Bool
unfolding upper
docs_enabled none = false
docs_enabled (some level) = text_eq (upper level) (codes "DEBUG")

-- `app.state`, and the docs.
pub record App : Type 0 where
  pub docs : Bool
  pub keys : MultiFernet
  pub file : ConfigFile
  pub state : Started

-- What the app is built in: the environment, MultiFernet, the clock and the zones, and MySQL.
pub record Host : Type 0 where
  pub env : String → Option Text
  pub build_multifernet : List Text → Result Exn MultiFernet
  pub around : Surroundings
  pub server : Server
  -- uvicorn knows the log level; for another one its configuration raises KeyError
  pub takes_level : Text → Bool

-- The orchestrator is new, and so is the scheduler.
unfoldable pub idle : List Table → Started
unfolding init
idle ts = record { sched = none; queue = init; tables = ts }

unfoldable pub start_if :
    Host → Bool → MultiFernet → ConfigFile → List Table → Result Exn (Unit {0}) × Started
start_if h start_scheduler mf file ts =
    if start_scheduler then start h.around h.server mf file init ts else (ok tt, idle ts)

unfoldable pub app_of :
    Host → MultiFernet → ConfigFile → Result Exn (Unit {0}) × Started → Result Exn App
app_of h mf file (err e, s) = err e
app_of h mf file (ok u, s) =
    ok (record { docs = docs_enabled (h.env "LOG_LEVEL"); keys = mf; file = file; state = s })

-- The database keeps what `start` did to it, also where it raises.
unfoldable pub with_store :
    Host → Bool → Result Exn MultiFernet → ConfigFile → List Table → Result Exn App × List Table
unfolding start_if app_of
with_store h start_scheduler (err e) file ts = (err e, ts)
with_store h start_scheduler (ok mf) file ts =
    let s = start_if h start_scheduler mf file ts in (app_of h mf file s, s.1.tables)

unfoldable pub create_app : Host → Bool → ConfigFile → List Table → Result Exn App × List Table
unfolding with_store
create_app h start_scheduler file ts =
    with_store h start_scheduler
      (do keys ← parse_keys_env (h.env "CONFIG_ENC_KEYS"); h.build_multifernet keys) file ts

-- How `main` goes on: the process ends with a code, or with an exception, or it serves.
pub data Ending : Type 0 where
  exits : ℕ → Ending
  raises : Exn → Ending
  serves : App → Text → ℤ → Ending

unfoldable pub listen : Bool → App → Result Exn (Text × ℤ) → Ending
listen takes app (err e) = raises e
listen takes app (ok (host, port)) = if takes then serves app host port else raises other

unfoldable pub serve : Bool → Option Text → Result Exn App → Ending
unfolding listen
serve takes bind (err e) = raises e
serve takes bind (ok app) = listen takes app (bind_of bind)

unfoldable pub exit_or : Option ℕ → Ending → Ending
exit_or none e = e
exit_or (some code) e = exits code

unfoldable pub main : Host → ConfigFile → List Table → Ending
unfolding create_app serve exit_or log_level
main h file ts = exit_or (enforce_env_or_exit h.env) (
    serve (h.takes_level (log_level (h.env "LOG_LEVEL"))) (h.env "WEB_BIND")
      (create_app h true file ts).0)
