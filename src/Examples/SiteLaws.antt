-- ===== src/Examples/SiteLaws.antt =====
-- That the site of blue_waving.Examples.Site behaves as the theorems ask.
use blue_waving.Auth.{is_in}
use blue_waving.Base.{
  ℕ, ◌≡◌, refl, ◌∙◌, inl, inr, Bool, true, false, ◌&&◌, ◌||◌, Option, none, some, [], ◌∷◌, arith,
  ◌==◌, if◌then◌else◌, Bool-cases, List, any, Text, text_eq,
}
use blue_waving.Exceptions.{Exn, timeout, os_error, other, is_web_driver}
use blue_waving.Action.{pure}
use blue_waving.Action.Ensures.{Ensures, Any, Ensures-pure, Ensures-raise, Ensures-if, Ensures-bind}
use blue_waving.Action.Reaches.{Reaches-if, Reaches-raise, Reaches, Reaches-pure, Reaches-bind}
use blue_waving.Selectors.{same_selector}
use blue_waving.Driver.{ReportOutcome}
use blue_waving.Driver.Lawful.{Lawful, is_os_error}
use blue_waving.Login.{or_nothing, has_any, reports_page_marker}
use blue_waving.Scrape.Awaiting.{Clock}
use blue_waving.Scrape.Results.{Table}
use blue_waving.Login.Pages.{Pages}
use blue_waving.Examples.Site.{
  Site, Removed, without, change, ask, answer, browser, Untouched, harmless, At1500,
}

touched : (el : ℕ) (s : Site) → harmless el ≡ true → Untouched s → (el == 0) || s.lockdown ≡ false
touched el s h p = ground arith

touching :
    (f : Site → Site) (el : ℕ)
    → ((s : Site) → (f s).lockdown ≡ (el == 0) || s.lockdown)
    → harmless el ≡ true
    → Ensures Untouched is_web_driver Any (change f)
touching f el same h = record { at = λ s p. (same s ∙ touched el s h p, tt) }

leaving_it :
    {allowed : Exn → Bool} (f : Site → Site)
    → ((s : Site) → (f s).lockdown ≡ s.lockdown)
    → Ensures Untouched allowed Any (change f)
leaving_it f same = record { at = λ s p. (same s ∙ p, tt) }

asking : {A : Type 0} {allowed : Exn → Bool} (f : Site → A) → Ensures Untouched allowed Any (ask f)
asking f = record { at = λ s p. (p, tt) }

answered : (o : Option ReportOutcome) → Ensures Untouched is_web_driver Any (answer o)
unfolding is_web_driver
answered (some r) = Ensures-pure r tt
answered none = Ensures-raise timeout refl

shown_if :
    (b : Bool)
    → b ≡ false
    → is_in reports_page_marker (or_nothing (if b then some reports_page_marker else none)) ≡ true
    → false ≡ true
unfolding is_in
shown_if false e h = h
shown_if true e h = cc

is_empty_if : (b : Bool) → has_any (if false || (true && b) then 1 ∷ [] else []) ≡ true → b ≡ true
unfolding has_any
is_empty_if true h = refl
is_empty_if false h = h

answered_last :
    (Q : ReportOutcome → Site → Type 0) (o : Option ReportOutcome) (s : Site)
    → ((r : ReportOutcome) → o ≡ some r → Q r s)
    → Reaches (λ e t. Unit {0}) Q (answer o) s
answered_last Q (some r) s h = Reaches-pure r s (h r refl)
answered_last Q none s h = Reaches-raise timeout s tt

any-without : (dir : Text) (dirs : List Text) → any (text_eq dir) (without dir dirs) ≡ false
any-without dir [] = refl
any-without dir (d ∷ dirs) = ground (arith, any-without dir dirs)

module _ (logs_in empty : Bool) where
  pub browser-Lawful : Lawful (browser logs_in empty) Untouched harmless
  unfolding is_web_driver is_os_error
  browser-Lawful = record {
    make_profile = record { at = λ s p. (p, tt) };
    start = λ o. leaving_it _ (λ s. refl);
    allow_downloads = λ dir. Ensures-raise other refl;
    quit = leaving_it _ (λ s. refl);
    remove_profile = λ dir. leaving_it _ (λ s. refl);
    get = λ url. Ensures-pure tt tt;
    page_source = asking _;
    find_element = λ sel h. Ensures-pure _ (rw h refl);
    find_elements = λ sel. Ensures-pure _ tt;
    is_present = λ sel. Ensures-pure _ tt;
    is_clickable = λ sel. Ensures-pure true tt;
    click_element = λ el h. touching _ el (λ s. refl) h;
    clear = λ el h. touching _ el (λ s. refl) h;
    send_keys = λ el t h. touching _ el (λ s. refl) h;
    get_value = λ el. asking _;
    select_by_visible_text = λ el t h. touching _ el (λ s. refl) h;
    js_click = λ el h. touching _ el (λ s. refl) h;
    js_set_value = λ el t h. touching _ el (λ s. refl) h;
    wait = λ n test h.
        Ensures-bind test _ h
          (λ b _. Ensures-if b _ _ (λ _. Ensures-pure tt tt) (λ _. Ensures-raise timeout refl));
    wait_outcome = λ n test h. Ensures-bind test _ h (λ o _. answered o);
    monotonic = asking _;
    sleep = λ n. leaving_it _ (λ s. refl);
    current_url = Ensures-pure _ tt;
    title = Ensures-pure _ tt;
    body_text = Ensures-pure _ tt;
    write_page_source = Ensures-raise os_error refl;
    make_screenshot_dir = Ensures-raise os_error refl;
    dir_exists = Ensures-pure true tt;
    make_dir = Ensures-pure tt tt;
    write_probe = Ensures-pure tt tt;
    unlink_probe = Ensures-pure tt tt;
    list_files = Ensures-pure _ tt;
    unlink = λ f. Ensures-raise os_error refl;
    target_exists = Ensures-pure true tt;
    has_crdownload = asking _;
  }

  pub browser-Clock : Clock (browser logs_in empty) Untouched (λ s. s.now) (λ s. Unit) At1500
  browser-Clock = record {
    monotonic = λ s p. record { at = (p, (omega arith, omega arith)) };
    sleep = λ n s p. record { at = (p, omega arith) };
    target_exists = λ s p. Reaches-pure true s (p, (omega arith, λ _. tt));
    has_crdownload = λ s p _. record { at = (p, (omega arith, λ h. ground arith)) };
  }

  pub browser-Pages : Pages (browser logs_in empty) (λ s. s.on_reports ≡ true)
  unfolding is_in
  browser-Pages = record {
    source = λ s. record {
      at = λ h. elim (Bool-cases s.on_reports) [
        | inl e ↦ e
        | inr e ↦ cc (shown_if s.on_reports e h)
      ];
    };
    until = λ n test Q h s. Reaches-bind test _ s (h s) (λ b t q.
        Reaches-if b _ _ t (λ e. Reaches-pure tt t (q e)) (λ _. Reaches-raise timeout t tt));
  }

  pub browser-Table : Table (browser logs_in empty) (λ s. Unit) (λ s. empty ≡ true)
  unfolding same_selector has_any pure
  browser-Table = record {
    rows = λ s. record { at = λ h. tt };
    cells = λ s f. record { at = (tt, λ h. is_empty_if empty h) };
    until = λ n test Q h s. Reaches-bind test _ s (h s) (λ o t q. answered_last Q o t q);
  }

  pub browser-reads :
      (el : ℕ) (s : Site)
      → Reaches (λ e t. Unit {0}) (λ v t. v ≡ t.value) ((browser logs_in empty).get_value el) s
  browser-reads el s = record { at = refl }

  pub browser-quits :
      (s : Site)
      → Reaches (λ e t. t.running ≡ false) (λ _ t. t.running ≡ false) (browser logs_in empty).quit s
  browser-quits s = record { at = refl }

  pub browser-removes :
      (dir : Text) (s : Site)
      → s.running ≡ false
      → Reaches
          (λ e t. (t.running ≡ false) × Removed dir t)
          (λ _ t. (t.running ≡ false) × Removed dir t)
          ((browser logs_in empty).remove_profile dir)
          s
  browser-removes dir s h = record { at = (h, any-without dir s.profiles) }
