-- ===== src/Routes/Dashboard.antt =====
-- bluewave/routes.py: the dashboard. The texts for the next run are parameters.
use blue_waving.Base.{ℕ, Option, none, some, List, [], ◌∷◌, ◌++◌, Text, codes}
use blue_waving.Config.{Config}
use blue_waving.Runs.{RunRow}
use blue_waving.Routes.Html.{Page, raw, shown, number}
use blue_waving.Routes.Pages.{Assets, Printer, page_shell, rows_table}

-- The line on the next run: in UTC, the time until then, and in the zone or empty.
pub record NextRun : Type 0 where
  pub utc : Text
  pub eta : Text
  pub local : Text

unfoldable pub recent_html : Printer → List RunRow → Page
unfolding rows_table
recent_html p [] = raw "<p class='muted'>No runs yet.</p>" ∷ []
recent_html p (r ∷ rs) = rows_table p (r ∷ rs)

unfoldable pub in_flight_html : Printer → Option ℕ → Page
in_flight_html p none = raw "<span class='muted'>idle</span>" ∷ []
in_flight_html p (some d) = shown (p.of_date d) ∷ []

unfoldable pub status_pill : Text → Page
status_pill [] = []
status_pill (c ∷ t) = raw " &middot; status <code>" ∷ shown (c ∷ t) ∷ raw "</code>" ∷ []

unfoldable pub local_html : Text → Page
local_html [] = []
local_html (c ∷ t) = raw " &middot; local <code>" ∷ shown (c ∷ t) ∷ raw "</code>" ∷ []

unfoldable pub next_run_html : Option NextRun → Page
unfolding local_html
next_run_html none = []
next_run_html (some n) =
    (raw "<br>next run <code>" ∷ shown n.utc ∷ raw " (" ∷ shown n.eta ∷ raw ")</code>" ∷ [])
    ++ local_html n.local

unfoldable pub setup_page : Assets → Page
unfolding page_shell
setup_page a =
    page_shell a (codes "Setup — bluewave-worker")
      (raw
          "<header><h1>bluewave-worker</h1><div class='meta'>Setup required</div></header><main><div class='banner'>Container is <strong>unconfigured</strong>. Open <a href='/config'>/config</a> to enter BlueWeb / MySQL / schedule.</div></main>"
        ∷ [])
      []

unfoldable pub dashboard_body :
    Assets → Printer → Config → ℕ → Option ℕ → List RunRow → Text → Option NextRun → Page
unfolding in_flight_html status_pill next_run_html recent_html
dashboard_body a p cfg queue_depth in_flight recent_runs healthz_status next =
    (raw "<header>\n"
      ∷ raw "<h1>"
      ∷ shown cfg.site_label
      ∷ raw "</h1>\n"
      ∷ raw "<div class='meta'>BlueWeb audit ingest worker &middot;\n"
      ∷ raw " TZ <code>"
      ∷ shown cfg.operator_timezone
      ∷ raw "</code> &middot;\n"
      ∷ raw " schedule <code>"
      ∷ shown cfg.schedule_local
      ∷ raw " local</code> &middot;\n"
      ∷ raw " queue <code>"
      ∷ number queue_depth
      ∷ raw "</code> &middot;\n"
      ∷ raw " in flight "
      ∷ [])
    ++ (in_flight_html p in_flight
        ++ (status_pill healthz_status
            ++ (next_run_html next
                ++ ((raw "</div>\n"
                      ∷ raw "</header>\n"
                      ∷ raw "<main>\n"
                      ∷ raw "<nav>\n"
                      ∷ raw "<a href='/runs'>Full run history</a>\n"
                      ∷ raw "<a href='/config'>Configure</a>\n"
                      ∷ raw "</nav>\n"
                      ∷ raw "\n"
                      ∷ raw "<h2>Actions</h2>\n"
                      ∷ raw "<div class='button-row'>\n"
                      ∷ raw
                          "<button id='run-now' class='primary' type='button'>Run now (yesterday)</button>\n"
                      ∷ raw
                          "<button id='dry-run' class='secondary' type='button'>Dry-run preview (yesterday)</button>\n"
                      ∷ raw
                          "<button id='catchup' class='secondary' type='button'>Catch up missing</button>\n"
                      ∷ raw "</div>\n"
                      ∷ raw "<p class='muted' style='margin-top:0.4rem;'>\n"
                      ∷ raw
                          "Dry-run logs in, downloads the CSV, transforms rows, and shows how many would be\n"
                      ∷ raw "inserted vs. duplicates — without writing anything to the DB.\n"
                      ∷ raw "</p>\n"
                      ∷ raw "<div id='status' class='status'></div>\n"
                      ∷ raw "\n"
                      ∷ raw "<h2>Recent runs</h2>\n"
                      ∷ [])
                    ++ (recent_html p recent_runs
                        ++ ((raw "\n"
                            ∷ raw "</main>\n"
                            ∷ raw "<script>"
                            ∷ raw a.dashboard_js
                            ∷ raw "</script>\n"
                            ∷ [])))))))

unfoldable pub render_dashboard_html :
    Assets
    → Printer
    → Option Config
    → ℕ
    → Option ℕ
    → List RunRow
    → Text
    → Text
    → Option NextRun
    → Page
unfolding setup_page page_shell dashboard_body
render_dashboard_html a p none queue_depth in_flight recent_runs csrf_token healthz_status next =
    setup_page a
render_dashboard_html a p (some cfg) queue_depth in_flight recent_runs csrf_token healthz_status
      next =
    page_shell a (cfg.site_label ++ codes " — bluewave-worker")
      (dashboard_body a p cfg queue_depth in_flight recent_runs healthz_status next)
      (raw "<meta name='csrf-token' content='" ∷ shown csrf_token ∷ raw "'>" ∷ [])
