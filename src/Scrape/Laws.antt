-- ===== src/Scrape/Laws.antt =====
-- bluewave/scrape.py: what a scrape may touch, what it raises, and what it leaves where it returns.
use blue_waving.Base.{ℕ, ◌≡◌, refl, Bool, true, false, ◌||◌, none, some, arith, if◌then◌else◌, Text}
use blue_waving.Exceptions.{Exn, failure, nav_failed, report_timeout, is_web_driver}
use blue_waving.Action.{Action}
use blue_waving.Action.Ensures.{
  Ensures, Any, Ensures-pure, Ensures-raise, Ensures-if, Ensures-catch, Ensures-bind,
  Ensures-except, Ensures-weaken,
}
use blue_waving.Action.Reaches.{
  Reaches, Reaches-pure, Reaches-bind, Reaches-weaken, Ensures-Reaches,
}
use blue_waving.Selectors.{
  Selector, is_denied, report_type_dropdown, start_date_input, end_date_input, get_report_button,
  report_results_first_row, report_no_results_indicator,
}
use blue_waving.Datetime.{Datetime}
use blue_waving.Driver.{Driver, ReportOutcome, has_rows, no_rows}
use blue_waving.Driver.Lawful.{Lawful, find-Ensures, click-Ensures}
use blue_waving.Login.{is_no_such_element, is_timeout, has_any}
use blue_waving.Scrape.{
  download_unless_empty, select_event_report, type_value, fall_back, set_value, set_one_date_input,
  set_date_range, read_cells, outcome, click_get_report_and_wait, scrape_event_report,
  report_wait_s, download_wait_s, nav_wait_s, event_report_label, holds,
}
use blue_waving.Scrape.Wiping.{
  is_scrape_failure, scrape_raises, web_driver_raises, failure_raises, wipe_download_dir-Ensures,
}
use blue_waving.Scrape.Awaiting.{Clock, click_csv_and_await_file_lem}

module _ {S : Type 0} {drv : Driver S} {P : S → Type 0} {safe : ℕ → Bool}
    (law : Lawful drv P safe) where
  select_event_report-Ensures : (n : ℕ) → Ensures P scrape_raises Any (select_event_report drv n)
  unfolding select_event_report
  select_event_report-Ensures n =
      Ensures-bind _ _
        (Ensures-except is_timeout nav_failed _
          (law.wait n _ (law.is_clickable report_type_dropdown)) (failure_raises _ refl)
          web_driver_raises)
        λ _ _.
          Ensures-except is_web_driver nav_failed _
            (Ensures-bind _ _ (find-Ensures law report_type_dropdown refl)
              (λ el h. law.select_by_visible_text el event_report_label h))
            (failure_raises _ refl) web_driver_raises

  sleep-Ensures : {allowed : Exn → Bool} (n : ℕ) → Ensures P allowed Any (drv.sleep n)
  sleep-Ensures n = Ensures-weaken _ (λ e h. cc h) (λ a q. q) (law.sleep n)

  type_value-Ensures :
      (el : ℕ) (value : Text)
      → safe el ≡ true
      → Ensures P is_web_driver Any (type_value drv el value)
  unfolding type_value
  type_value-Ensures el value h =
      Ensures-catch _ _
        (Ensures-bind _ _ (law.clear el h) λ _ _.
          Ensures-bind _ _ (law.send_keys el value h)
            λ _ _. Ensures-bind _ _ (sleep-Ensures 200) λ _ _. law.get_value el)
        (λ e w.
          Ensures-if (is_web_driver e) _ _ (λ _. Ensures-pure none tt) (λ _. Ensures-raise e w))

  abbrev date_raises : Exn → Bool
  date_raises e = is_web_driver e || is_scrape_failure e

  fall_back-Ensures :
      (el : ℕ) (value : Text) → safe el ≡ true → Ensures P date_raises Any (fall_back drv el value)
  unfolding fall_back
  fall_back-Ensures el value h =
      Ensures-bind _ _ (Ensures-weaken _ (λ e w. rw w) (λ a q. q) (type_value-Ensures el value h))
        λ current _.
          Ensures-if (holds current value) _ _ (λ _. Ensures-pure tt tt)
            (λ _. Ensures-raise (failure nav_failed) (ground arith))

  -- What raises only Selenium's errors, where a date is set.
  as_date :
      {A : Type 0} {Q : A → Type 0} (m : Action S A)
      → Ensures P is_web_driver Q m
      → Ensures P date_raises Q m
  as_date m h = Ensures-weaken m (λ e w. rw w) (λ a q. q) h

  set_one_date_input-Ensures :
      (sel : Selector) (value : Text)
      → is_denied sel ≡ false
      → Ensures P date_raises Any (set_one_date_input drv sel value)
  unfolding set_one_date_input set_value
  set_one_date_input-Ensures sel value ok_sel =
      Ensures-bind _ _ (as_date _ (find-Ensures law sel ok_sel)) λ el h.
        Ensures-bind _ _ (as_date _ (law.js_set_value el value h)) λ _ _.
          Ensures-bind _ _ (sleep-Ensures 300) λ _ _.
            Ensures-bind _ _ (as_date _ (law.get_value el)) λ current _.
              Ensures-if (holds current value) _ _ (λ _. Ensures-pure tt tt)
                (λ _. fall_back-Ensures el value h)

  set_date_range-Ensures : (d : Datetime) → Ensures P scrape_raises Any (set_date_range drv d)
  unfolding set_date_range
  set_date_range-Ensures d =
      Ensures-except is_no_such_element nav_failed _
        (Ensures-bind _ _ (set_one_date_input-Ensures start_date_input _ refl)
          (λ _ _. set_one_date_input-Ensures end_date_input _ refl))
        (failure_raises _ refl) (λ e h. ground arith)

  outcome-Ensures : Ensures P is_web_driver Any (outcome drv)
  unfolding outcome read_cells
  outcome-Ensures = Ensures-bind _ _ (law.find_elements report_results_first_row) λ rows _.
      Ensures-if (has_any rows) (read_cells drv) _
        (λ _.
          Ensures-bind _ _ (law.find_elements report_no_results_indicator)
            (λ cells _. Ensures-pure (some (if has_any cells then no_rows else has_rows)) tt))
        (λ _. Ensures-pure none tt)

  click_get_report_and_wait-Ensures :
      (n : ℕ) → Ensures P scrape_raises Any (click_get_report_and_wait drv n)
  unfolding click_get_report_and_wait
  click_get_report_and_wait-Ensures n =
      Ensures-bind _ _
        (Ensures-except is_no_such_element nav_failed _ (click-Ensures law get_report_button refl)
          (failure_raises _ refl) web_driver_raises)
        λ _ _.
          Ensures-except is_timeout report_timeout _ (law.wait_outcome n _ outcome-Ensures)
            (failure_raises _ refl) web_driver_raises

  module _ {now : S → ℕ} {landed whole : S → Type 0} (clock : Clock drv P now landed whole) where
    abbrev Raised : Exn → S → Type 0
    Raised e t = P t × scrape_raises e ≡ true

    ensured :
        {A : Type 0} (m : Action S A) (s : S)
        → Ensures P scrape_raises Any m
        → P s
        → Reaches Raised (λ _ t. P t) m s
    ensured m s h p = Reaches-weaken m s (λ e t q. q) (λ a t q. q.0) (Ensures-Reaches m s h p)

    download_unless_empty_lem :
        (result : ReportOutcome) (s : S)
        → P s
        → Reaches Raised
            (λ got t. P t × (got ≡ true → whole t))
            (download_unless_empty drv result)
            s
    unfolding download_unless_empty
    download_unless_empty_lem no_rows s p = Reaches-pure false s (p, λ h. cc h)
    download_unless_empty_lem has_rows s p =
        Reaches-bind _ _ s
          (Reaches-weaken _ s (λ e t q. (q.0, ground arith)) (λ a t q. q)
            (click_csv_and_await_file_lem clock law download_wait_s s p))
          (λ _ t q. Reaches-pure true t (q.0, λ _. q.1))

    pub scrape_event_report_lem :
        (d : Datetime) (s : S)
        → P s
        → Reaches Raised (λ got t. P t × (got ≡ true → whole t)) (scrape_event_report drv d) s
    unfolding scrape_event_report
    scrape_event_report_lem d s p =
        Reaches-bind _ _ s (ensured _ s (wipe_download_dir-Ensures law) p) λ _ s1 p1.
          Reaches-bind _ _ s1 (ensured _ s1 (select_event_report-Ensures nav_wait_s) p1) λ _ s2 p2.
            Reaches-bind _ _ s2 (ensured _ s2 (set_date_range-Ensures d) p2) λ _ s3 p3.
              Reaches-bind _ _ s3
                (ensured _ s3 (click_get_report_and_wait-Ensures report_wait_s) p3)
                λ result s4 p4. download_unless_empty_lem result s4 p4
