-- ===== src/Examples/Services.antt =====
-- The theorems on the queue's line, healthz, the probes and the tools, at concrete inputs.
use blue_waving.Web.{lift}
use blue_waving.Routes.Settings.{is_schedule}
use blue_waving.Routes.Health.Schedules.{is_schedule-IsNext}
use blue_waving.Base.{
  ◌+◌, ◌-◌, ◌≤◌, ◌<◌, ◌≡◌, refl, ◌↔◌, true, false, Option, none, some, List, [], ◌∷◌, arith, every,
  Text, codes, strip, ℤ, Result, ok,
}
use blue_waving.Exceptions.{Exn}
use blue_waving.Config.{
  Config, MultiFernet, ConfigFile, load, save, parse_keys_env, split, save_again,
}
use blue_waving.Orchestrator.{init, try_enqueue}
use blue_waving.Orchestrator.Invariant.{pending, enqueue, Reach-IsSound, start}
use blue_waving.Orchestrator.Refine.{LineStep, Step-LineStep}
use blue_waving.Scheduler.{Surroundings}
use blue_waving.Routes.Health.{
  LocalTime, UtcTime, Clocks, Health, parse_schedule, next_utc_run, eta_parts, healthz,
}
use blue_waving.Routes.Health.Laws.{IsNext, total, fits, eta_parts_bounds}
use blue_waving.Routes.Health.Answers.{is_low, healthz_iff}
use blue_waving.Tools.{rotate_config}
use blue_waving.Tools.Laws.{Rotated, rotate_config-Rotated}
use blue_waving.Routes.Pages.{Assets, Printer}
use blue_waving.Routes.Dashboard.{render_dashboard_html}
use blue_waving.Routes.ConfigPage.{render_config_html}
use blue_waving.Routes.Escaping.{skeleton, skeleton-settings}
use blue_waving.Examples.{old_run, settings, keyed, rotating}

Step-LineStep_example : LineStep (pending init) (pending (try_enqueue 739684 true init).1)
Step-LineStep_example = Step-LineStep (Reach-IsSound start) (enqueue init 739684 true)

abbrev surroundings : Surroundings
surroundings = record {
  knows_zone = λ z. true;
  takes_cron = λ h m. true;
  today_in = λ z. 739684;
  connects = true;
  runs = [];
}

-- Half past one in the morning: the run of today is over.
abbrev half_past_one : LocalTime
half_past_one = record { day = 739684; second = 5400; microsecond = 250; fold = false }

abbrev tomorrow_at_one : UtcTime
tomorrow_at_one = record { day = 739685; second = 3599; microsecond = 0 }

-- Clocks that show this time, one second ahead of UTC.
abbrev clocks : Clocks
clocks = record {
  now_in = λ zone. half_past_one;
  to_utc = λ (zone : Text) (t : LocalTime). record {
    day = t.day;
    second = t.second - 1;
    microsecond = t.microsecond;
  };
}

valid_schedule : is_schedule settings.schedule_local ≡ true
unfolding is_schedule strip split
valid_schedule = refl

is_schedule-IsNext_example :
    (t : LocalTime) × (next_utc_run surroundings clocks settings
      ≡ ok (some (clocks.to_utc (codes "UTC") t)))
    × (hm : ℤ × ℤ) × (parse_schedule settings.schedule_local ≡ some hm)
    × IsNext half_past_one hm t
is_schedule-IsNext_example =
    is_schedule-IsNext surroundings clocks settings valid_schedule refl (omega arith, omega arith)

eta_parts_bounds_example :
    (total (eta_parts 93784) ≤ 93784)
    × (93784 < total (eta_parts 93784) + 60)
    × (every fits (eta_parts 93784) ≡ true)
eta_parts_bounds_example = eta_parts_bounds 93784

abbrev stored : ConfigFile
stored = save (keyed 5) settings none

abbrev healthy : Health
healthy = record {
  code = 200;
  status = "ok";
  reasons = [];
  uptime_seconds = 60;
  site_label = some (codes "Plant");
  next_run_at = some tomorrow_at_one;
  catchup_pending = some 0;
  disk_free_mb = some 2048;
}

answered : healthz surroundings clocks (keyed 5) stored 60 (some 2048) init ≡ ok healthy
unfolding healthz save init strip lift load split
answered = refl

healthz_iff_example :
    (healthy.code ≡ 200)
    ↔ ((cfg : Config) × (load (keyed 5) stored ≡ ok (some cfg)) × (is_low (some 2048) ≡ false))
healthz_iff_example =
    healthz_iff surroundings clocks 60 (some 2048) init (keyed 5) stored healthy answered

abbrev schema_row : Option (Option Text × Option Text)
schema_row = some (some (codes "utf8mb4"), some (codes "utf8mb4_0900_ai_ci"))

abbrev answer_row : Result Exn (Option (Option Text × Option Text))
answer_row = ok schema_row

abbrev build : List Text → Result Exn MultiFernet
build keys = ok rotating

abbrev raw_keys : Option Text
raw_keys = some (codes "k7,k5")

rotates : rotate_config build none raw_keys stored ≡ ok (0, save rotating settings none)
unfolding rotate_config save strip save_again
rotates = refl

rotate_config-Rotated_example :
    (keys : List Text) × (mf : MultiFernet) × (parse_keys_env raw_keys ≡ ok keys)
    × (build keys ≡ ok mf)
    × Rotated mf none stored (0, save rotating settings none)
rotate_config-Rotated_example =
    rotate_config-Rotated build none raw_keys stored (0, save rotating settings none) rotates

abbrev assets : Assets
assets = record { base_css = "body{}"; dashboard_js = "run()"; config_js = "save()" }

abbrev printer : Printer
printer = record { of_date = λ d. codes "2026-03-09"; of_time = λ t. codes "2026-03-09 01:00:00" }

-- Settings whose label tries to be a tag.
abbrev hostile : Config
hostile = record settings { site_label = codes "<script>alert('x')</script>" }

skeleton-settings_example :
    (skeleton (render_config_html assets (some settings) (codes "t1"))
      ≡ skeleton (render_config_html assets (some hostile) (codes "'><b>")))
    × (skeleton (
          render_dashboard_html assets printer
            (some settings)
            2
            (some 739684)
            (old_run ∷ [])
            (codes "t1")
            (codes "ok")
            none)
        ≡ skeleton (
            render_dashboard_html assets printer
              (some hostile)
              2
              (some 739684)
              (old_run ∷ [])
              (codes "'><b>")
              (codes "ok")
              none))
skeleton-settings_example =
    skeleton-settings assets settings hostile (codes "t1") (codes "'><b>") printer 2 (some 739684)
      (old_run ∷ []) (codes "ok") none
