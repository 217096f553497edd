-- ===== src/Login/Pages.antt =====
-- bluewave/login.py: where logging in returns, the Reports page has been shown.
use blue_waving.Base.{ℕ, ◌≡◌, Bool, true, Text}
use blue_waving.Action.{Action}
use blue_waving.Action.Reaches.{
  Whatever, Reaches, Reaches-pure, Reaches-raise, Reaches-catch, Reaches-bind, Reaches-any,
}
use blue_waving.Auth.{is_in}
use blue_waving.Driver.{Driver}
use blue_waving.Login.{login_and_navigate, shows_reports, reports_page_marker, or_nothing}

-- `shown` is a page whose source has the marker; WebDriverWait.until returns only where its test
-- returned true.
pub record Pages {S : Type 0} (drv : Driver S) (shown : S → Type 0) : Type 1 where
  pub source :
      (s : S)
      → Reaches Whatever
          (λ t u. is_in reports_page_marker (or_nothing t) ≡ true → shown u)
          drv.page_source
          s
  pub until :
      (n : ℕ) (test : Action S Bool) (Q : S → Type 0)
      → ((t : S) → Reaches Whatever (λ b u. b ≡ true → Q u) test t)
      → (s : S) → Reaches Whatever (λ _ u. Q u) (drv.wait n test) s

module _ {S : Type 0} {drv : Driver S} {shown : S → Type 0} (pages : Pages drv shown) where
  shows_reports_lem : (s : S) → Reaches Whatever (λ b u. b ≡ true → shown u) (shows_reports drv) s
  unfolding shows_reports
  shows_reports_lem s = Reaches-bind _ _ s (pages.source s) (λ t u q. Reaches-pure _ u q)

  -- Where page_source and until tell the truth, login_and_navigate that returns has seen the
  -- marker of the Reports page, whichever way it logged in.
  pub login_and_navigate_lem :
      (url user password : Text) (login_wait nav_wait : ℕ) (s : S)
      → Reaches Whatever
          (λ _ u. shown u)
          (login_and_navigate drv url user password login_wait nav_wait)
          s
  unfolding login_and_navigate
  login_and_navigate_lem url user password login_wait nav_wait s =
      Reaches-bind _ _ s (Reaches-any _ s) λ _ s1 _.
        Reaches-bind _ _ s1 (Reaches-any _ s1) λ authed s2 _.
          Reaches-bind _ _ s2 (Reaches-any _ s2) λ _ s3 _.
            Reaches-bind _ _ s3 (Reaches-any _ s3) λ _ s4 _.
              Reaches-catch {F = Whatever} _ _ s4
                (pages.until nav_wait _ shown shows_reports_lem s4) (λ e u _. Reaches-raise _ u tt)
