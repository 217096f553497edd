-- ===== src/Scrape/Awaiting.antt =====
-- bluewave/scrape.py: the wait for the downloaded file, over a clock that does not go back.
use blue_waving.Base.{
  ℕ, zero, suc, ◌+◌, ◌*◌, ◌≤◌, ◌<◌, ◌≡◌, refl, sym, Bool, true, false, not, ◌||◌, arith, ltb,
  if◌then◌else◌,
}
use blue_waving.Exceptions.{Exn, failure, download_failed, is_web_driver}
use blue_waving.Action.{Action, raise, ◌>>=◌}
use blue_waving.Action.Ensures.{Ensures-except}
use blue_waving.Action.Reaches.{
  Reaches, Reaches-pure, Reaches-raise, Reaches-if, Reaches-bind, Reaches-weaken, Ensures-Reaches,
}
use blue_waving.Selectors.{csv_export_button}
use blue_waving.Driver.{Driver}
use blue_waving.Driver.Lawful.{Lawful, is_os_error, click-Ensures}
use blue_waving.Login.{is_no_such_element}
use blue_waving.Scrape.{download_ready, poll, await_file, click_csv_and_await_file}

-- What the wait may raise.
abbrev pub await_raises : Exn → Bool
await_raises e =
    is_web_driver e || (is_os_error e || (elim e [ failure download_failed ↦ true | _ ↦ false ]))

-- The clock `now` does not go back and a sleep takes its time, as time.monotonic and time.sleep
-- document. A test that finds the target has it `landed`, and one that then finds no partial download
-- has it `whole`.
pub record Clock {S : Type 0} (drv : Driver S) (P : S → Type 0) (now : S → ℕ)
    (landed whole : S → Type 0) : Type 0 where
  pub monotonic :
      (s : S) → P s → Reaches (λ e t. ⊥) (λ v t. P t × (now s ≤ v × v ≤ now t)) drv.monotonic s
  pub sleep :
      (n : ℕ) (s : S) → P s → Reaches (λ e t. ⊥) (λ _ t. P t × now s + n ≤ now t) (drv.sleep n) s
  pub target_exists :
      (s : S)
      → P s
      → Reaches
          (λ e t. P t × is_os_error e ≡ true)
          (λ b t. P t × (now s ≤ now t × (b ≡ true → landed t)))
          drv.target_exists
          s
  pub has_crdownload :
      (s : S)
      → P s
      → landed s
      → Reaches
          (λ e t. P t × is_os_error e ≡ true)
          (λ b t. P t × (now s ≤ now t × (b ≡ false → whole t)))
          drv.has_crdownload
          s

module _ {S : Type 0} {drv : Driver S} {P : S → Type 0} {now : S → ℕ} {landed whole : S → Type 0}
    (clock : Clock drv P now landed whole) where
  abbrev Raised : Exn → S → Type 0
  Raised e t = P t × await_raises e ≡ true

  os_error-Raised : (e : Exn) (t : S) → P t × is_os_error e ≡ true → Raised e t
  os_error-Raised e t (p, h) = (p, ground arith)

  flipped : (b : Bool) → not b ≡ true → b ≡ false
  flipped true h = sym h
  flipped false h = refl

  download_ready_lem :
      (s : S)
      → P s
      → Reaches Raised (λ b t. P t × (now s ≤ now t × (b ≡ true → whole t))) (download_ready drv) s
  unfolding download_ready
  download_ready_lem s p =
      Reaches-bind _ _ s (Reaches-weaken _ s os_error-Raised (λ b t q. q) (clock.target_exists s p))
        λ b t q.
          Reaches-if b _ _ t
            (λ h.
              Reaches-bind _ _ t
                (Reaches-weaken _ t os_error-Raised (λ c u r. r)
                  (clock.has_crdownload t q.0 (q.1.1 h)))
                λ c u r. Reaches-pure (not c) u (r.0, (omega arith, λ n. r.1.1 (flipped c n))))
            (λ h. Reaches-pure false t (q.0, (q.1.0, λ n. cc n)))

  -- A round of the loop, before a `rest` that is right half a second later.
  poll_lem :
      (rest : Action S (Unit {0})) (s : S)
      → P s
      → ((t : S) → P t → now s + 500 ≤ now t → Reaches Raised (λ _ u. P u × whole u) rest t)
      → Reaches Raised (λ _ u. P u × whole u) (poll drv rest) s
  unfolding poll
  poll_lem rest s p h = Reaches-bind _ _ s (download_ready_lem s p) λ ready t q.
      Reaches-if ready _ _ t (λ r. Reaches-pure tt t (q.0, q.1.1 r))
        (λ _.
          Reaches-bind _ _ t
            (Reaches-weaken _ t (λ e u e'. elim e' [ ]) (λ x u r. r) (clock.sleep 500 t q.0))
            λ _ u r. h u r.0 (omega arith))

  -- The test of the loop, before a `rest` that is run only before the deadline.
  round_lem :
      (rest : Action S (Unit {0})) (deadline : ℕ) (s : S)
      → P s
      → ((t : S)
          → P t
          → now s < deadline
          → now s + 500 ≤ now t
          → Reaches Raised (λ _ u. P u × whole u) rest t)
      → Reaches Raised
          (λ _ u. P u × whole u)
          (drv.monotonic >>= λ v.
            if ltb v deadline then poll drv rest else raise (failure download_failed))
          s
  unfolding is_web_driver is_os_error
  round_lem rest deadline s p h =
      Reaches-bind _ _ s
        (Reaches-weaken _ s (λ e t e'. elim e' [ ]) (λ v t q. q) (clock.monotonic s p))
        λ v t q.
          Reaches-if (ltb v deadline) _ _ t
            (λ early. poll_lem rest t q.0 (λ u pu late. h u pu (ground arith) (omega arith)))
            (λ late. Reaches-raise _ t (q.0, refl))

  -- Enough fuel: a round for each half second to the deadline, and the last one.
  pub await_file_lem :
      (fuel deadline : ℕ) (s : S)
      → P s
      → deadline ≤ now s + 500 * fuel
      → Reaches Raised (λ _ t. P t × whole t) (await_file drv (suc fuel) deadline) s
  unfolding await_file
  await_file_lem zero deadline s p enough =
      round_lem _ deadline s p (λ t pt early late. ground arith)
  await_file_lem (suc fuel) deadline s p enough =
      round_lem _ deadline s p (λ t pt early late. await_file_lem fuel deadline t pt (omega arith))

  module _ {safe : ℕ → Bool} (law : Lawful drv P safe) where
    -- With a clock that does not go back and sleeps that take their time, the wait for the
    -- download ends after at most two rounds for each second of its timeout and one more, which is
    -- its fuel: it returns with the file there and no partial download left, or raises
    -- DownloadFailed, an exception of Selenium or an OSError.
    pub click_csv_and_await_file_lem :
        (timeout_s : ℕ) (s : S)
        → P s
        → Reaches Raised (λ _ t. P t × whole t) (click_csv_and_await_file drv timeout_s) s
    unfolding click_csv_and_await_file is_web_driver is_os_error
    click_csv_and_await_file_lem timeout_s s p =
        Reaches-bind _ _ s
          (Reaches-weaken _ s (λ e t h. h) (λ x t q. q.0)
            (Ensures-Reaches _ s
              (Ensures-except is_no_such_element download_failed _
                (click-Ensures law csv_export_button refl) refl (λ e h. rw h))
              p))
          λ _ t pt.
            Reaches-bind _ _ t
              (Reaches-weaken _ t (λ e u e'. elim e' [ ]) (λ v u q. q) (clock.monotonic t pt))
              λ v u q. await_file_lem (2 * timeout_s) _ u q.0 (omega arith)
