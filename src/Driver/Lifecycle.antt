-- ===== src/Driver/Lifecycle.antt =====
-- bluewave/driver.py, `build_driver`: the browser is stopped and its profile removed, however the body
-- ends.
use mathlib.Core.Path.{subst}
use blue_waving.Base.{◌≡◌, refl, sym, ap, ◌∙◌, some, Text, Result, ok, err}
use blue_waving.Exceptions.{Exn}
use blue_waving.Action.{Action, tolerate, finally, ◌>>◌}
use blue_waving.Action.Reaches.{
  Reaches, Reaches-pure, Reaches-catch, Reaches-bind, Reaches-both, bind_ok,
}
use blue_waving.Driver.Options.{build_chrome_options}
use blue_waving.Driver.{Driver, with_driver}

-- What the body leaves is what the last action starts from.
finally_state :
    {S A : Type 0} (r : Result Exn A) (q : Result Exn (Unit {0})) (s : S)
    → (elim q as (λ _. Result Exn A × S) [ ok u ↦ (r, s) | err e ↦ (err e, s) ]).1 ≡ s
finally_state r (ok u) s = refl
finally_state r (err e) s = refl

pub finally-state :
    {S A : Type 0} (m : Action S A) (last : Action S (Unit {0})) (s : S)
    → (finally m last s).1 ≡ (last (m s).1).1
unfolding finally
finally-state m last s = finally_state (m s).0 (last (m s).1).0 (last (m s).1).1

module _ {S : Type 0} (Q : S → Type 0) where
  tolerate_lem :
      (m : Action S (Unit {0})) (s : S)
      → Reaches (λ e t. Q t) (λ _ t. Q t) m s
      → Reaches (λ e t. Q t) (λ _ t. Q t) (tolerate m) s
  unfolding tolerate
  tolerate_lem m s h = Reaches-catch m _ s h (λ e t q. Reaches-pure tt t q)

module _ {S : Type 0} (drv : Driver S) (stopped : S → Type 0) (clean : Text → S → Type 0)
    (quits : (s : S) → Reaches (λ e t. stopped t) (λ _ t. stopped t) drv.quit s)
    (removes : (profile : Text) (s : S)
      → stopped s
      → Reaches
          (λ e t. stopped t × clean profile t)
          (λ _ t. stopped t × clean profile t)
          (drv.remove_profile profile)
          s) where
  close_lem :
      (profile : Text) (s : S)
      → Reaches
          (λ e t. stopped t × clean profile t)
          (λ _ t. stopped t × clean profile t)
          (do tolerate drv.quit; tolerate (drv.remove_profile profile))
          s
  unfolding tolerate
  close_lem profile s =
      Reaches-bind _ _ s (Reaches-catch drv.quit _ s (quits s) (λ e t q. Reaches-pure tt t q))
        (λ _ t q.
          tolerate_lem (λ u. stopped u × clean profile u) (drv.remove_profile profile) t
            (removes profile t q))

  -- Where a profile directory was made and the browser has started on it, and quit and rmtree do
  -- their work even where they raise: whatever the body does, in the end the browser is stopped
  -- and this directory is removed.
  pub with_driver_closes :
      {A : Type 0} (profile : Text) (body : Action S A) (s : S)
      → (drv.make_profile s).0 ≡ ok profile
      → (drv.start
          (build_chrome_options drv.pid drv.download_dir (some profile))
          (drv.make_profile s).1).0
        ≡ ok tt
      → stopped (with_driver drv body s).1 × clean profile (with_driver drv body s).1
  unfolding with_driver
  with_driver_closes profile body s made started =
      let inner = (do tolerate (drv.allow_downloads drv.download_dir); body) in
      let last = (do tolerate drv.quit; tolerate (drv.remove_profile profile)) in
      let options = build_chrome_options drv.pid drv.download_dir (some profile) in
      let s2 = (drv.start options (drv.make_profile s).1).1 in
      let e : (with_driver drv body s).1 ≡ (last (inner s2).1).1 =
        ap (λ x. x.1)
          (bind_ok drv.make_profile _ s profile made ∙ bind_ok (drv.start options) _ _ tt started)
        ∙ finally-state inner last s2 in
      subst (λ u. stopped u × clean profile u) (sym e)
        (Reaches-both (λ u. stopped u × clean profile u) last _ (close_lem profile (inner s2).1))
