-- ===== src/Routes.antt =====
-- bluewave/routes.py: the handlers that change state. A date is its ordinal.
pub mod Laws
pub mod Settings
pub mod Health
pub mod Listing
pub mod Html
pub mod Pages
pub mod Dashboard
pub mod ConfigPage
pub mod Escaping
pub mod Views
pub mod Trials
use blue_waving.Base.{
  ℕ, zero, suc, ◌+◌, ◌-◌, ◌*◌, ◌/◌, Bool, true, Option, none, some, List, [], ◌∷◌, ltb, leb,
  if◌then◌else◌, Text, ℤ, pos, negsuc, Result, ok, err, ◌>>=◌,
}
use blue_waving.Exceptions.{Exn}
use blue_waving.Config.{Config, MultiFernet, ConfigFile, load}
use blue_waving.Datetime.{days_in_month, is_datetime, read_year, read_field, read_day, expect}
use blue_waving.Web.{HttpError, http_exception, raised, lift}
use blue_waving.Orchestrator.{Queue, EnqueueResult, try_enqueue}
use blue_waving.Orchestrator.Window.{minus_days}
use blue_waving.Orchestrator.Missing.{catchup_missing}
use blue_waving.Scheduler.{Surroundings, zone_info}

unfoldable pub or_http {ℓ} : {A : Type ℓ} → ℕ → Option A → Result HttpError A
or_http code none = err (http_exception code)
or_http code (some a) = ok a

-- date.toordinal
unfoldable pub days_before_month : ℕ → ℕ → ℕ
days_before_month y zero = 0
days_before_month y (suc zero) = 0
days_before_month y (suc (suc m)) = days_before_month y (suc m) + days_in_month y (suc m)

unfoldable pub to_ordinal : ℕ → ℕ → ℕ → ℕ
unfolding days_before_month
to_ordinal y m d = let p = y - 1 in p * 365 + p / 4 - p / 100 + p / 400 + days_before_month y m + d

unfoldable pub date_of : ℕ → ℕ → ℕ × Text → Option ℕ
unfolding to_ordinal is_datetime
date_of y m (d, []) =
    if is_datetime (record { year = y; month = m; day = d; hour = 0; minute = 0; second = 0 })
    then some (to_ordinal y m d)
    else none
date_of y m (d, c ∷ t) = none

-- `datetime.strptime(value, "%Y-%m-%d").date()`
unfoldable pub parse_date : Text → Option ℕ
unfolding date_of
parse_date value = elim (read_year value) [
  | none ↦ none
  | some yr ↦ elim (expect b'-' yr.1) [
    | none ↦ none
    | some r ↦ elim (read_field 1 12 r) [
      | none ↦ none
      | some mr ↦ elim (expect b'-' mr.1) [
        | none ↦ none
        | some r' ↦ elim (read_day r') [ none ↦ none | some dr ↦ date_of yr.0 mr.0 dr ]
      ]
    ]
  ]
]

-- `_today_local` of a config
unfoldable pub today_local : Surroundings → Config → Result HttpError ℕ
today_local w cfg = lift (do zone ← zone_info w cfg.operator_timezone; ok (w.today_in zone))

unfoldable pub configured : Result Exn (Option Config) → Result HttpError Config
configured (err e) = err (raised e)
configured (ok none) = err (http_exception 409)
configured (ok (some cfg)) = ok cfg

unfoldable pub requested_date : ℕ → Option Text → Result HttpError ℕ
unfolding or_http
requested_date today none = lift (minus_days today 1)
requested_date today (some value) = or_http 400 (parse_date value)

unfoldable pub past_date : ℕ → ℕ → Result HttpError ℕ
past_date today d = if leb today d then err (http_exception 400) else ok d

unfoldable pub exceeds : ℕ → ℤ → Bool
exceeds n (pos cap) = ltb cap n
exceeds n (negsuc c) = true

unfoldable pub within_cap : ℕ → ℤ → ℕ → Result HttpError ℕ
unfolding exceeds
within_cap today cap d = if exceeds (today - d) cap then err (http_exception 400) else ok d

-- The date that a handler runs for; `cap` is BACKFILL_SAFETY_CAP_DAYS as an integer.
unfoldable pub dry_run_date :
    Surroundings → Result Exn (Option Config) → Option Text → Result HttpError ℕ
unfolding configured requested_date past_date
dry_run_date w stored report_date = do
  cfg ← configured stored
  today ← today_local w cfg
  d ← requested_date today report_date
  past_date today d

unfoldable pub run_date :
    Surroundings → Result Exn (Option Config) → Result Exn ℤ → Option Text → Result HttpError ℕ
unfolding within_cap
run_date w stored cap report_date = do
  cfg ← configured stored
  today ← today_local w cfg
  d ← requested_date today report_date
  d ← past_date today d
  cap ← lift cap
  within_cap today cap d

unfoldable pub respond : ℕ → EnqueueResult × Queue → Result HttpError (ℕ × ℕ) × Queue
respond d (r, q) = (if r.accepted then ok (d, r.queue_depth) else err (http_exception 409), q)

unfoldable pub enqueue_date : Result HttpError ℕ → Queue → Result HttpError (ℕ × ℕ) × Queue
unfolding respond
enqueue_date (err e) q = (err e, q)
enqueue_date (ok d) q = respond d (try_enqueue d true q)

-- `gate` is the result of the dependencies. The answer is the date and the depth of the queue.
unfoldable pub post_run :
    Result HttpError Text
    → Surroundings
    → MultiFernet
    → ConfigFile
    → Result Exn ℤ
    → Option Text
    → Queue
    → Result HttpError (ℕ × ℕ) × Queue
unfolding enqueue_date
post_run gate w mf file cap report_date q =
    enqueue_date (do user ← gate; run_date w (load mf file) cap report_date) q

unfoldable pub caught_up :
    Queue → Result Exn ((List ℕ × List ℕ) × Queue) → Result HttpError (List ℕ × List ℕ) × Queue
caught_up q (err e) = (err (raised e), q)
caught_up q (ok (reported, q')) = (ok reported, q')

unfoldable pub catchup_on :
    Surroundings
    → Queue
    → Result HttpError (Config × ℕ)
    → Result HttpError (List ℕ × List ℕ) × Queue
unfolding caught_up
catchup_on w q (err e) = (err e, q)
catchup_on w q (ok (cfg, today)) =
    caught_up q (catchup_missing w.connects w.runs (some cfg) today cfg.catch_up_cap_days q)

unfoldable pub post_catchup :
    Result HttpError Text
    → Surroundings
    → MultiFernet
    → ConfigFile
    → Queue
    → Result HttpError (List ℕ × List ℕ) × Queue
unfolding catchup_on
post_catchup gate w mf file q =
    catchup_on w q
      (do user ← gate; cfg ← configured (load mf file); today ← today_local w cfg; ok (cfg, today))
