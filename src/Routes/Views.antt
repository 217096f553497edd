-- ===== src/Routes/Views.antt =====
-- bluewave/routes.py: the handlers that show pages. A new token and the
-- texts for the next run are parameters; a token is made on each request.
use blue_waving.Base.{
  ℕ, Bool, Option, none, some, List, [], if◌then◌else◌, length, Text, Result, ok, ◌>>=◌,
}
use blue_waving.Config.{Config, MultiFernet, ConfigFile, load}
use blue_waving.Orchestrator.{Queue}
use blue_waving.Runs.{RunRow}
use blue_waving.Scheduler.{Surroundings}
use blue_waving.Web.{HttpError, lift}
use blue_waving.Routes.{configured}
use blue_waving.Routes.Health.{Clocks, UtcTime, next_utc_run}
use blue_waving.Routes.Html.{Page}
use blue_waving.Routes.Listing.{page, get_runs}
use blue_waving.Routes.Pages.{Assets, Printer, render_runs_html}
use blue_waving.Routes.Dashboard.{NextRun, render_dashboard_html}
use blue_waving.Routes.ConfigPage.{render_config_html}

-- /csrf
unfoldable pub csrf : Result HttpError Text → Result HttpError Text → Result HttpError Text
csrf gate token = do user ← gate; token

unfoldable pub get_config :
    Result HttpError Text
    → MultiFernet
    → ConfigFile
    → Assets
    → Result HttpError Text
    → Result HttpError Page
unfolding render_config_html
get_config gate mf file a token = do
  user ← gate
  cfg ← lift (load mf file)
  token ← token
  ok (render_config_html a cfg token)

-- get_runs for a browser, with the page of the list.
unfoldable pub get_runs_html :
    Result HttpError Text
    → MultiFernet
    → ConfigFile
    → Bool
    → (List RunRow → List RunRow)
    → ℕ
    → ℕ
    → List RunRow
    → Assets
    → Printer
    → Result HttpError Page
unfolding get_runs render_runs_html
get_runs_html gate mf file connects by_start limit offset runs a p = do
  rows ← get_runs gate mf file connects by_start limit offset runs
  cfg ← configured (load mf file)
  ok (render_runs_html a p cfg rows limit offset)

-- The last runs, or none where MySQL is not reached.
unfoldable pub recent_runs : Bool → (List RunRow → List RunRow) → List RunRow → List RunRow
unfolding page
recent_runs connects by_start runs = if connects then page by_start 10 0 runs else []

abbrev pub printed : (UtcTime → NextRun) → Option UtcTime → Option NextRun
printed print_next none = none
printed print_next (some t) = some (print_next t)

unfoldable pub dashboard_of :
    Surroundings
    → Clocks
    → (UtcTime → NextRun)
    → (List RunRow → List RunRow)
    → Assets
    → Printer
    → Result HttpError Text
    → Queue
    → Option Config
    → Result HttpError Page
unfolding recent_runs render_dashboard_html next_utc_run
dashboard_of w clocks print_next by_start a p token q none =
    ok (render_dashboard_html a p none 0 none [] [] [] none)
dashboard_of w clocks print_next by_start a p token q (some cfg) = do
  token ← token
  next ← lift (next_utc_run w clocks cfg)
  ok (
      render_dashboard_html a p (some cfg) (length q.queue) q.in_flight
        (recent_runs w.connects by_start w.runs) token [] (printed print_next next))

unfoldable pub index :
    Result HttpError Text
    → MultiFernet
    → ConfigFile
    → Surroundings
    → Clocks
    → (UtcTime → NextRun)
    → (List RunRow → List RunRow)
    → Assets
    → Printer
    → Result HttpError Text
    → Queue
    → Result HttpError Page
unfolding dashboard_of
index gate mf file w clocks print_next by_start a p token q = do
  user ← gate
  cfg ← lift (load mf file)
  dashboard_of w clocks print_next by_start a p token q cfg
