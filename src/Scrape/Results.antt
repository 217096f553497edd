-- ===== src/Scrape/Results.antt =====
-- bluewave/scrape.py: a report counts as empty only where the table says so.
use blue_waving.Base.{ℕ, ◌≡◌, refl, Bool, true, false, Option, none, some, if◌then◌else◌}
use blue_waving.Action.{Action}
use blue_waving.Action.Reaches.{
  Whatever, Reaches, Reaches-pure, Reaches-raise, Reaches-if, Reaches-catch, Reaches-bind,
  Reaches-any,
}
use blue_waving.Selectors.{report_results_first_row, report_no_results_indicator}
use blue_waving.Datetime.{Datetime}
use blue_waving.Driver.{Driver, ReportOutcome, has_rows, no_rows}
use blue_waving.Login.{has_any}
use blue_waving.Scrape.{
  read_cells, outcome, click_get_report_and_wait, download_unless_empty, scrape_event_report,
  report_wait_s,
}

-- What find_elements tells of the page, `filled` where the table has a row and `says_empty` where it
-- has the cell for an empty report; and what WebDriverWait.until returns: what its test returned last.
pub record Table {S : Type 0} (drv : Driver S) (filled says_empty : S → Type 0) : Type 1 where
  pub rows :
      (s : S)
      → Reaches Whatever
          (λ els t. has_any els ≡ true → filled t)
          (drv.find_elements report_results_first_row)
          s
  pub cells :
      (s : S)
      → filled s
      → Reaches Whatever
          (λ els t. filled t × (has_any els ≡ true → says_empty t))
          (drv.find_elements report_no_results_indicator)
          s
  pub until :
      (n : ℕ) (test : Action S (Option ReportOutcome)) (Q : ReportOutcome → S → Type 0)
      → ((t : S) → Reaches Whatever (λ o u. (r : ReportOutcome) → o ≡ some r → Q r u) test t)
      → (s : S) → Reaches Whatever Q (drv.wait_outcome n test) s

-- What the table shows by the outcome of the wait.
abbrev pub Shown : {S : Type 0} → (S → Type 0) → (S → Type 0) → ReportOutcome → S → Type 0
Shown filled says_empty has_rows t = filled t
Shown filled says_empty no_rows t = filled t × says_empty t

module _ {S : Type 0} {drv : Driver S} {filled says_empty : S → Type 0}
    (table : Table drv filled says_empty) where
  shown :
      (b : Bool) (t : S) (r : ReportOutcome)
      → filled t
      → (b ≡ true → says_empty t)
      → some (if b then no_rows else has_rows) ≡ some r
      → Shown filled says_empty r t
  shown true t no_rows f h e = (f, h refl)
  shown true t has_rows f h e = f
  shown false t has_rows f h e = f
  shown false t no_rows f h e = cc

  outcome_lem :
      (s : S)
      → Reaches Whatever
          (λ o t. (r : ReportOutcome) → o ≡ some r → Shown filled says_empty r t)
          (outcome drv)
          s
  unfolding outcome read_cells
  outcome_lem s = Reaches-bind _ _ s (table.rows s) λ rows t q.
      Reaches-if (has_any rows) _ _ t
        (λ h.
          Reaches-bind _ _ t (table.cells t (q h))
            λ cells u f. Reaches-pure _ u (λ r e. shown (has_any cells) u r f.0 f.1 e))
        (λ _. Reaches-pure none t (λ r e. cc e))

  pub click_get_report_and_wait_lem :
      (n : ℕ) (s : S)
      → Reaches Whatever (Shown filled says_empty) (click_get_report_and_wait drv n) s
  unfolding click_get_report_and_wait
  click_get_report_and_wait_lem n s = Reaches-bind _ _ s (Reaches-any _ s) λ _ t _.
      Reaches-catch {F = Whatever} _ _ t (table.until n _ (Shown filled says_empty) outcome_lem t)
        (λ e u _. Reaches-raise _ u tt)

  download_lem :
      (r : ReportOutcome) (s : S)
      → Shown filled says_empty r s
      → Reaches Whatever (λ got t. got ≡ false → says_empty t) (download_unless_empty drv r) s
  unfolding download_unless_empty
  download_lem no_rows s q = Reaches-pure false s (λ _. q.1)
  download_lem has_rows s q =
      Reaches-bind _ _ s (Reaches-any _ s) (λ _ t _. Reaches-pure true t (λ h. cc h))

  -- Where find_elements and until tell the truth, a scrape that returns no file has seen the cell
  -- with which the table says that the report is empty.
  pub scrape_event_report_empty :
      (d : Datetime) (s : S)
      → Reaches Whatever (λ got t. got ≡ false → says_empty t) (scrape_event_report drv d) s
  unfolding scrape_event_report
  scrape_event_report_empty d s = Reaches-bind _ _ s (Reaches-any _ s) λ _ s1 _.
      Reaches-bind _ _ s1 (Reaches-any _ s1) λ _ s2 _.
        Reaches-bind _ _ s2 (Reaches-any _ s2) λ _ s3 _.
          Reaches-bind _ _ s3 (click_get_report_and_wait_lem report_wait_s s3)
            λ r s4 q. download_lem r s4 q
