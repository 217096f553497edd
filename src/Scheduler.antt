-- ===== src/Scheduler.antt =====
-- bluewave/scheduler.py: the daily job. APScheduler keeps the job; it and the zones are parameters.
use blue_waving.Schema.Tables.{bootstrap_on, Table, Server}
use blue_waving.Base.{
  ℕ, zero, suc, ◌+◌, ◌-◌, ◌*◌, Bool, true, false, ◌&&◌, Option, none, some, List, [], ◌∷◌, ◌==◌,
  if◌then◌else◌, Text, strip, ℤ, pos, negsuc, Result, ok, err, ◌>>=◌,
}
use blue_waving.Exceptions.{Exn, value_error, other}
use blue_waving.Config.{Config, MultiFernet, ConfigFile, load, split}
use blue_waving.Datetime.{is_digit}
use blue_waving.Runs.{RunRow}
use blue_waving.Orchestrator.{Queue, try_enqueue}
use blue_waving.Orchestrator.Window.{minus_days}
use blue_waving.Orchestrator.Missing.{catchup_missing}

-- `int(s)` of ASCII text: the digits, with single underscores between them.
unfoldable pub int_digits : Bool → ℕ → Text → Option ℕ
int_digits after_digit acc [] = if after_digit then some acc else none
int_digits after_digit acc (c ∷ t) = elim (is_digit c) [
  | true ↦ int_digits true (acc * 10 + (c - 48)) t
  | false ↦ elim (after_digit && (c == b'_')) [ true ↦ int_digits false acc t | false ↦ none ]
]

unfoldable pub negate : ℕ → ℤ
negate zero = pos 0
negate (suc n) = negsuc n

unfoldable pub minus : Option ℕ → Option ℤ
unfolding negate
minus none = none
minus (some n) = some (negate n)

unfoldable pub plus : Option ℕ → Option ℤ
plus none = none
plus (some n) = some (pos n)

unfoldable pub signed : Text → Option ℤ
unfolding int_digits minus plus
signed [] = none
signed (c ∷ t) =
    if c == b'-'
    then minus (int_digits false 0 t)
    else if c == b'+'
    then plus (int_digits false 0 t)
    else plus (int_digits false 0 (c ∷ t))

unfoldable pub int_of : Text → Option ℤ
unfolding signed
int_of t = signed (strip t)

unfoldable pub or_value_error {ℓ} : {A : Type ℓ} → Option A → Result Exn A
or_value_error none = err value_error
or_value_error (some a) = ok a

-- `hh, mm = value.split(":")`
unfoldable pub pair_of : List Text → Result Exn (Text × Text)
pair_of (hh ∷ mm ∷ []) = ok (hh, mm)
pair_of _ = err value_error

-- What the daily job is registered with.
pub record Job : Type 0 where
  pub hour : ℤ
  pub minute : ℤ
  pub zone : Text

pub record Surroundings : Type 0 where
  -- the name of a zone, as ZoneInfo knows it
  pub knows_zone : Text → Bool
  -- CronTrigger takes the hour and the minute
  pub takes_cron : ℤ → ℤ → Bool
  -- the date in a zone, when the handler runs
  pub today_in : Text → ℕ
  -- what the catch-up meets: MySQL is reached, and its table of runs
  pub connects : Bool
  pub runs : List RunRow

-- `_sched`: None, or the scheduler with the job that it holds under JOB_ID_DAILY.
abbrev pub Sched : Type 0
Sched = Option (Option Job)

unfoldable pub zone_info : Surroundings → Text → Result Exn Text
zone_info w name = if w.knows_zone name then ok name else err other

unfoldable pub cron_trigger : Surroundings → Text → ℤ → ℤ → Result Exn Job
cron_trigger w zone h m =
    if w.takes_cron h m then ok (record { hour = h; minute = m; zone = zone }) else err value_error

-- The job of `_register_daily`, before it replaces the one that is there.
unfoldable pub daily_job : Surroundings → Config → Result Exn Job
unfolding pair_of int_of or_value_error zone_info cron_trigger
daily_job w cfg = do
  fields ← pair_of (split b':' cfg.schedule_local)
  tz ← zone_info w cfg.operator_timezone
  h ← or_value_error (int_of fields.0)
  m ← or_value_error (int_of fields.1)
  cron_trigger w tz h m

-- `add_job` replaces the job, and a failure leaves the scheduler as it was.
unfoldable pub registered : Result Exn Job → Sched → Result Exn (Unit {0}) × Sched
registered (ok job) sched = (ok tt, some (some job))
registered (err e) sched = (err e, sched)

unfoldable pub register_daily : Surroundings → Config → Sched → Result Exn (Unit {0}) × Sched
unfolding registered
register_daily w cfg sched = registered (daily_job w cfg) sched

-- `_fire`
unfoldable pub fire : Surroundings → Job → Queue → Result Exn (Unit {0}) × Queue
fire w job q = elim (minus_days (w.today_in job.zone) 1) [
  | err e ↦ (err e, q)
  | ok yesterday ↦ (ok tt, (try_enqueue yesterday false q).1)
]

-- The end of reconfigure, with the job removed.
unfoldable pub reconfigure_with :
    Surroundings → Result Exn (Option Config) → Result Exn (Unit {0}) × Sched
reconfigure_with w (err e) = (err e, some none)
reconfigure_with w (ok none) = (ok tt, some none)
reconfigure_with w (ok (some cfg)) = register_daily w cfg (some none)

unfoldable pub reconfigure :
    Surroundings → MultiFernet → ConfigFile → Sched → Result Exn (Unit {0}) × Sched
unfolding reconfigure_with
reconfigure w mf file none = (ok tt, none)
reconfigure w mf file (some job) = reconfigure_with w (load mf file)

unfoldable pub catchup_or_keep : Result Exn ((List ℕ × List ℕ) × Queue) → Queue → Queue
catchup_or_keep (err e) q = q
catchup_or_keep (ok (reported, q')) q = q'

-- `_boot_catchup`: whatever it raises is logged.
unfoldable pub boot_catchup : Surroundings → Config → Queue → Queue
unfolding catchup_or_keep
boot_catchup w cfg q =
    if w.knows_zone cfg.operator_timezone
    then catchup_or_keep
        (catchup_missing w.connects w.runs (some cfg) (w.today_in cfg.operator_timezone)
          cfg.catch_up_cap_days q)
        q
    else q

-- `_bootstrap_audit_table`: its result is logged, and so is what it raises.
unfoldable pub bootstrap_audit_table : Server → List Table → List Table
bootstrap_audit_table server ts = if server.connects then (bootstrap_on server ts).1 else ts

-- What `start` leaves behind.
pub record Started : Type 0 where
  pub sched : Sched
  pub queue : Queue
  pub tables : List Table

unfoldable pub after_register :
    Surroundings
    → Config
    → Queue
    → List Table
    → Result Exn (Unit {0}) × Sched
    → Result Exn (Unit {0}) × Started
unfolding boot_catchup
after_register w cfg q ts (err e, sched) = (err e, record { sched = sched; queue = q; tables = ts })
after_register w cfg q ts (ok u, sched) =
    (ok tt, record { sched = sched; queue = boot_catchup w cfg q; tables = ts })

unfoldable pub start_with :
    Surroundings
    → Server
    → Result Exn (Option Config)
    → Queue
    → List Table
    → Result Exn (Unit {0}) × Started
unfolding after_register bootstrap_audit_table
start_with w server (err e) q ts = (err e, record { sched = some none; queue = q; tables = ts })
start_with w server (ok none) q ts = (ok tt, record { sched = some none; queue = q; tables = ts })
start_with w server (ok (some cfg)) q ts =
    after_register w cfg q (bootstrap_audit_table server ts) (register_daily w cfg (some none))

unfoldable pub start :
    Surroundings
    → Server
    → MultiFernet
    → ConfigFile
    → Queue
    → List Table
    → Result Exn (Unit {0}) × Started
unfolding start_with
start w server mf file q ts = start_with w server (load mf file) q ts

-- When APScheduler runs the job that it holds, if it will: `job.next_run_time` is its own.
unfoldable pub next_run_at_utc : (Job → Option ℕ) → Sched → Option ℕ
next_run_at_utc next_run_time none = none
next_run_at_utc next_run_time (some none) = none
next_run_at_utc next_run_time (some (some job)) = next_run_time job

unfoldable pub stop : Sched → Sched
stop sched = none
