-- ===== src/Routes/Escaping.antt =====
-- bluewave/routes.py: what is shown on a page cannot change its tags.
use blue_waving.Base.{ℕ, ◌≡◌, refl, sym, ap, ◌∙◌, Option, some, List, select, Text}
use blue_waving.Config.{Config}
use blue_waving.Runs.{RunRow}
use blue_waving.Routes.Html.{Page, render, own_text, is_markup, render-markup}
use blue_waving.Routes.Pages.{Assets, Printer}
use blue_waving.Routes.Dashboard.{NextRun, render_dashboard_html}
use blue_waving.Routes.ConfigPage.{render_config_html}

-- The angle brackets and quotes of what the browser gets.
abbrev pub skeleton : Page → Text
skeleton page = select is_markup (render page)

same_skeleton : (p q : Page) → own_text p ≡ own_text q → skeleton p ≡ skeleton q
same_skeleton p q e = render-markup p ∙ ap (select is_markup) e ∙ sym (render-markup q)

-- Whatever the settings and the token are, the angle brackets and quotes of the settings form, and
-- those of the dashboard with the same queue, runs and next run, are the same: no setting opens or
-- closes a tag or an attribute.
pub skeleton-settings :
    (a : Assets) (cfg cfg' : Config) (token token' : Text) (p : Printer) (depth : ℕ)
    (in_flight : Option ℕ) (runs : List RunRow) (status : Text) (next : Option NextRun)
    → (skeleton (render_config_html a (some cfg) token)
        ≡ skeleton (render_config_html a (some cfg') token'))
      × (skeleton (render_dashboard_html a p (some cfg) depth in_flight runs token status next)
          ≡ skeleton
              (render_dashboard_html a p (some cfg') depth in_flight runs token' status next))
unfolding render_config_html render_dashboard_html
skeleton-settings a cfg cfg' token token' p depth in_flight runs status next =
    (same_skeleton _ _ refl, same_skeleton _ _ refl)
