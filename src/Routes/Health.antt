-- ===== src/Routes/Health.antt =====
-- bluewave/routes.py: the time of the next run, how long it is until then, and healthz. The zone's
-- clock is read as a day, its second, the microsecond and the fold; the strings for dates are left
-- out.
pub mod Laws
pub mod Answers
pub mod Schedules
use blue_waving.Base.{
  ℕ, zero, suc, ◌+◌, ◌*◌, ◌/◌, ◌%◌, String, Bool, false, ◌&&◌, Option, none, some, List, [], ◌∷◌,
  ◌++◌, ltb, leb, if◌then◌else◌, length, Text, ℤ, pos, negsuc, Result, ok, err, ◌>>=◌,
}
use blue_waving.Exceptions.{Exn, value_error}
use blue_waving.Config.{Config, MultiFernet, ConfigFile, load, split}
use blue_waving.Orchestrator.{Queue}
use blue_waving.Scheduler.{Surroundings, zone_info, pair_of, int_of}
use blue_waving.Web.{HttpError, lift}

pub record LocalTime : Type 0 where
  pub day : ℕ
  pub second : ℕ
  pub microsecond : ℕ
  pub fold : Bool

pub record UtcTime : Type 0 where
  pub day : ℕ
  pub second : ℕ
  pub microsecond : ℕ

-- `datetime.now(tz)`, and `astimezone(timezone.utc)` of a time in a zone.
pub record Clocks : Type 0 where
  pub now_in : Text → LocalTime
  pub to_utc : Text → LocalTime → UtcTime

abbrev pub day_seconds : ℕ
day_seconds = 86400

-- Microseconds on the zone's clock, by which datetimes of one zone are compared.
abbrev pub clock : LocalTime → ℕ
clock t = (t.day * day_seconds + t.second) * 1000000 + t.microsecond

unfoldable pub both_ints : Option ℤ → Option ℤ → Option (ℤ × ℤ)
both_ints (some h) (some m) = some (h, m)
both_ints _ _ = none

unfoldable pub ints_of : Result Exn (Text × Text) → Option (ℤ × ℤ)
unfolding both_ints int_of
ints_of (err e) = none
ints_of (ok (hh, mm)) = both_ints (int_of hh) (int_of mm)

-- `hh, mm = schedule.split(":")` and the two `int`; `none` where that raises.
unfoldable pub parse_schedule : Text → Option (ℤ × ℤ)
unfolding ints_of pair_of
parse_schedule schedule = ints_of (pair_of (split b':' schedule))

-- `now.replace(hour=h, minute=m, second=0, microsecond=0)`, which keeps the fold
unfoldable pub replace_clock : LocalTime → ℤ × ℤ → Result Exn LocalTime
replace_clock now (pos h, pos m) =
    if leb h 23 && leb m 59
    then ok (record { day = now.day; second = h * 3600 + m * 60; microsecond = 0; fold = now.fold })
    else err value_error
replace_clock now _ = err value_error

-- A timedelta acts on the zone's clock and drops the fold.
unfoldable pub tomorrow_if_past : LocalTime → LocalTime → LocalTime
tomorrow_if_past now t =
    if leb (clock t) (clock now) then record t { day = t.day + 1; fold = false } else t

-- Before the conversion to UTC; a schedule that does not parse has no next run.
unfoldable pub next_run_at :
    Surroundings → (Text → LocalTime) → Text → Option (ℤ × ℤ) → Result Exn (Option LocalTime)
unfolding replace_clock tomorrow_if_past zone_info
next_run_at w now_in name none = ok none
next_run_at w now_in name (some hm) = do
  zone ← zone_info w name
  t ← replace_clock (now_in zone) hm
  ok (some (tomorrow_if_past (now_in zone) t))

abbrev pub in_utc : (LocalTime → UtcTime) → Option LocalTime → Option UtcTime
in_utc to_utc none = none
in_utc to_utc (some t) = some (to_utc t)

unfoldable pub next_utc_run : Surroundings → Clocks → Config → Result Exn (Option UtcTime)
unfolding parse_schedule next_run_at
next_utc_run w clocks cfg = do
  candidate ← next_run_at w clocks.now_in cfg.operator_timezone (parse_schedule cfg.schedule_local)
  ok (in_utc (clocks.to_utc cfg.operator_timezone) candidate)

pub data EtaPart : Type 0 where
  days hours minutes : ℕ → EtaPart

pub data Eta : Type 0 where
  overdue : Eta
  in_parts : List EtaPart → Eta

unfoldable pub part_if : ℕ → (ℕ → EtaPart) → List EtaPart
part_if zero part = []
part_if (suc n) part = part (suc n) ∷ []

-- `if minutes or not parts`
unfoldable pub minutes_if : ℕ → List EtaPart → List EtaPart
unfolding part_if
minutes_if n [] = minutes n ∷ []
minutes_if n (p ∷ ps) = p ∷ ps ++ part_if n minutes

unfoldable pub eta_parts : ℕ → List EtaPart
unfolding part_if minutes_if
eta_parts secs =
    minutes_if (secs % 3600 / 60)
      (part_if (secs / 86400) days ++ part_if (secs % 86400 / 3600) hours)

-- `_format_eta`, from the whole seconds until then.
unfoldable pub format_eta : Option ℤ → Option Eta
unfolding eta_parts
format_eta none = none
format_eta (some (negsuc n)) = some overdue
format_eta (some (pos zero)) = some overdue
format_eta (some (pos (suc n))) = some (in_parts (eta_parts (suc n)))

pub record Health : Type 0 where
  pub code : ℕ
  pub status : String
  pub reasons : List String
  pub uptime_seconds : ℕ
  pub site_label : Option Text
  pub next_run_at : Option UtcTime
  pub catchup_pending : Option ℕ
  pub disk_free_mb : Option ℕ

unfoldable pub disk_reasons : Option ℕ → List String
disk_reasons none = []
disk_reasons (some mb) = if ltb mb 100 then "disk_low" ∷ [] else []

unfoldable pub unconfigured : ℕ → Option ℕ → Health
unconfigured uptime disk = record {
  code = 503;
  status = "unconfigured";
  reasons = "no_config" ∷ [];
  uptime_seconds = uptime;
  site_label = none;
  next_run_at = none;
  catchup_pending = none;
  disk_free_mb = disk;
}

unfoldable pub reported : ℕ → Option ℕ → Config → Queue → Option UtcTime → List String → Health
reported uptime disk cfg q next_run_at reasons = record {
  code = elim reasons [ [] ↦ 200 | (r ∷ rs) ↦ 503 ];
  status = elim reasons [ [] ↦ "ok" | (r ∷ rs) ↦ "degraded" ];
  reasons = reasons;
  uptime_seconds = uptime;
  site_label = some cfg.site_label;
  next_run_at = next_run_at;
  catchup_pending = some (length q.queue);
  disk_free_mb = disk;
}

unfoldable pub health_of :
    Surroundings → Clocks → ℕ → Option ℕ → Queue → Option Config → Result Exn Health
unfolding next_utc_run reported unconfigured disk_reasons
health_of w clocks uptime disk q none = ok (unconfigured uptime disk)
health_of w clocks uptime disk q (some cfg) = do
  at ← next_utc_run w clocks cfg
  ok (reported uptime disk cfg q at (disk_reasons disk))

unfoldable pub healthz :
    Surroundings
    → Clocks
    → MultiFernet
    → ConfigFile
    → ℕ
    → Option ℕ
    → Queue
    → Result HttpError Health
unfolding health_of
healthz w clocks mf file uptime disk q =
    lift (do cfg ← load mf file; health_of w clocks uptime disk q cfg)
