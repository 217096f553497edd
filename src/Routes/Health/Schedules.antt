-- ===== src/Routes/Health/Schedules.antt =====
-- bluewave/routes.py: a schedule that the form accepts has a next run.
use blue_waving.Base.{ℕ, ◌+◌, ◌*◌, ◌≤◌, ◌≡◌, refl, true, ◌&&◌, some, arith, leb, Text, ℤ, pos, ok}
use blue_waving.Config.{Config, split}
use blue_waving.Scheduler.{Surroundings, zone_info, pair_of}
use blue_waving.Routes.Settings.{is_schedule}
use blue_waving.Routes.Settings.Laws.{fields_in_range-Fields}
use blue_waving.Routes.Health.{
  Clocks, LocalTime, parse_schedule, ints_of, both_ints, replace_clock, tomorrow_if_past,
  next_run_at, next_utc_run,
}
use blue_waving.Routes.Health.Laws.{IsTime, IsNext, next_run_at-IsNext}

replace_clock-ok :
    (now : LocalTime) (h m : ℕ)
    → h ≤ 23
    → m ≤ 59
    → (t : LocalTime) × (replace_clock now (pos h, pos m) ≡ ok t)
unfolding replace_clock
replace_clock-ok now h m x y =
    let fit : leb h 23 && leb m 59 ≡ true = ground arith in
    (
      record { day = now.day; second = h * 3600 + m * 60; microsecond = 0; fold = now.fold },
      rw fit refl,
    )

has_next_run :
    (w : Surroundings) (now_in : Text → LocalTime) (cfg : Config)
    → is_schedule cfg.schedule_local ≡ true
    → w.knows_zone cfg.operator_timezone ≡ true
    → (t : LocalTime) × (next_run_at w now_in cfg.operator_timezone
          (parse_schedule cfg.schedule_local)
        ≡ ok (some t))
unfolding next_run_at parse_schedule ints_of both_ints zone_info is_schedule
has_next_run w now_in cfg valid known =
    let f = fields_in_range-Fields (pair_of (split b':' cfg.schedule_local)) valid in
    let now = now_in cfg.operator_timezone in
    let (t, e) = replace_clock-ok now f.h f.m f.hour_max f.minute_max in
    (tomorrow_if_past now t, rw (f.two, f.hour, f.minute, known, e) refl)

-- For a clock that shows a time of the day and a zone that is known, a schedule that the form
-- accepts has a next run. It is the conversion to UTC of a time which on the clock of the zone
-- shows the hour and minute that the schedule parses to, at most 23 and 59, with no seconds, and
-- which on that clock is after now and at most a day later.
pub is_schedule-IsNext :
    (w : Surroundings) (clocks : Clocks) (cfg : Config)
    → is_schedule cfg.schedule_local ≡ true
    → w.knows_zone cfg.operator_timezone ≡ true
    → IsTime (clocks.now_in cfg.operator_timezone)
    → (t : LocalTime) × (next_utc_run w clocks cfg
        ≡ ok (some (clocks.to_utc cfg.operator_timezone t)))
      × (hm : ℤ × ℤ) × (parse_schedule cfg.schedule_local ≡ some hm)
      × IsNext (clocks.now_in cfg.operator_timezone) hm t
unfolding next_utc_run
is_schedule-IsNext w clocks cfg valid known h =
    let (t, e) = has_next_run w clocks.now_in cfg valid known in
    let (hm, p, n) =
      next_run_at-IsNext w clocks.now_in cfg.operator_timezone (parse_schedule cfg.schedule_local) t
        h e in
    (t, rw e refl, hm, p, n)
