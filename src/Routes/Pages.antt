-- ===== src/Routes/Pages.antt =====
-- bluewave/routes.py: the shell of a page and the list of runs. `str` of a date and of a datetime are
-- parameters; so are the style sheet and the scripts.
use blue_waving.Base.{
  ℕ, ◌+◌, ◌-◌, String, Option, none, some, List, [], ◌∷◌, ◌++◌, str_eq, if◌then◌else◌, length, Text,
  codes,
}
use blue_waving.Config.{Config}
use blue_waving.Runs.{RunRow}
use blue_waving.Routes.Html.{Page, raw, shown, number, show_nat, show_int}

pub record Assets : Type 0 where
  pub base_css : String
  pub dashboard_js : String
  pub config_js : String

pub record Printer : Type 0 where
  pub of_date : ℕ → Text
  pub of_time : ℕ → Text

unfoldable pub page_shell : Assets → Text → Page → Page → Page
page_shell a title body head_extra =
    (raw "<!doctype html>\n"
      ∷ raw "<html lang=\"en\">\n"
      ∷ raw "<head>\n"
      ∷ raw "<meta charset=\"utf-8\">\n"
      ∷ raw "<meta name=\"viewport\" content=\"width=device-width, initial-scale=1\">\n"
      ∷ raw "<title>"
      ∷ shown title
      ∷ raw "</title>\n"
      ∷ raw "<style>"
      ∷ raw a.base_css
      ∷ raw "</style>\n"
      ∷ [])
    ++ (head_extra
        ++ ((raw "\n" ∷ raw "</head>\n" ∷ raw "<body>\n" ∷ [])
            ++ (body ++ ((raw "\n" ∷ raw "</body>\n" ∷ raw "</html>" ∷ [])))))

unfoldable pub css_of : String → String
css_of status =
    if str_eq status "ok" then "ok" else if str_eq status "running" then "running" else "fail"

-- `_esc` shows None as nothing.
unfoldable pub or_empty_text : {A : Type 0} → (A → Text) → Option A → Text
or_empty_text str none = []
or_empty_text str (some a) = str a

unfoldable pub run_row : Printer → RunRow → Page
unfolding css_of or_empty_text show_nat show_int
run_row p r =
    (raw "<tr class='"
      ∷ raw (css_of r.status)
      ∷ raw "'><td><a href='/runs/"
      ∷ shown (show_nat r.id)
      ∷ raw "'>#"
      ∷ shown (show_nat r.id)
      ∷ raw "</a></td><td>"
      ∷ shown (p.of_date r.report_date)
      ∷ raw "</td><td>"
      ∷ shown (p.of_time r.started_at)
      ∷ raw "</td><td>"
      ∷ shown (or_empty_text p.of_time r.finished_at)
      ∷ raw "</td><td class='status-cell'>"
      ∷ shown (codes r.status)
      ∷ raw "</td><td>"
      ∷ shown (or_empty_text show_nat r.rows_in_csv)
      ∷ raw "</td><td>"
      ∷ shown (or_empty_text show_nat r.rows_inserted)
      ∷ raw "</td><td>"
      ∷ shown (or_empty_text show_int r.rows_duplicate)
      ∷ raw "</td><td>"
      ∷ raw (if r.manual then "yes" else "no")
      ∷ raw "</td></tr>"
      ∷ [])

unfoldable pub run_rows : Printer → List RunRow → Page
unfolding run_row
run_rows p [] = []
run_rows p (r ∷ rs) = run_row p r ++ run_rows p rs

unfoldable pub rows_table : Printer → List RunRow → Page
unfolding run_rows
rows_table p rs =
    (raw
        "<table class='runs'><thead><tr><th>id</th><th>report_date</th><th>started (UTC)</th><th>finished (UTC)</th><th>status</th><th>rows in</th><th>inserted</th><th>dup</th><th>manual</th></tr></thead><tbody>"
      ∷ [])
    ++ (run_rows p rs ++ (raw "</tbody></table>" ∷ []))

unfoldable pub runs_body : Printer → Config → List RunRow → ℕ → ℕ → Page
unfolding rows_table
runs_body p cfg rows limit offset =
    (raw "<header>\n"
      ∷ raw "<h1>"
      ∷ shown cfg.site_label
      ∷ raw " — runs</h1>\n"
      ∷ raw "<div class='meta'>showing "
      ∷ number (offset + 1)
      ∷ raw "–"
      ∷ number (offset + length rows)
      ∷ raw " (limit "
      ∷ number limit
      ∷ raw ")</div>\n"
      ∷ raw "</header>\n"
      ∷ raw "<main>\n"
      ∷ raw "<nav><a href='/'>&larr; Dashboard</a> <a href='/config'>Configure</a></nav>\n"
      ∷ [])
    ++ (rows_table p rows
        ++ ((raw "\n"
            ∷ raw "<div class='button-row'>\n"
            ∷ raw "<a href='/runs?limit="
            ∷ number limit
            ∷ raw "&offset="
            ∷ number (offset - limit)
            ∷ raw "'><button class='secondary' type='button'>&larr; Previous</button></a>\n"
            ∷ raw "<a href='/runs?limit="
            ∷ number limit
            ∷ raw "&offset="
            ∷ number (offset + limit)
            ∷ raw "'><button class='secondary' type='button'>Next &rarr;</button></a>\n"
            ∷ raw "</div>\n"
            ∷ raw "</main>\n"
            ∷ [])))

unfoldable pub render_runs_html : Assets → Printer → Config → List RunRow → ℕ → ℕ → Page
unfolding page_shell runs_body
render_runs_html a p cfg rows limit offset =
    page_shell a (codes "Runs — " ++ cfg.site_label) (runs_body p cfg rows limit offset) []
