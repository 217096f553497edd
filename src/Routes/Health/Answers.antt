-- ===== src/Routes/Health/Answers.antt =====
-- bluewave/routes.py, healthz: when it answers 200.
use blue_waving.Base.{
  ℕ, ◌≡◌, refl, sym, ap, ◌∙◌, ◌↔◌, inl, inr, Bool, true, false, Option, none, some, ltb, ◌==◌,
  Bool-cases, ok, bind-eq-ok,
}
use blue_waving.Config.{Config, MultiFernet, ConfigFile, load}
use blue_waving.Orchestrator.{Queue}
use blue_waving.Scheduler.{Surroundings}
use blue_waving.Web.{lift_sound}
use blue_waving.Routes.Health.{
  Clocks, UtcTime, next_utc_run, Health, disk_reasons, reported, unconfigured, health_of, healthz,
}

abbrev pub is_low : Option ℕ → Bool
is_low none = false
is_low (some mb) = ltb mb 100

apart : ◌≡◌ {A = ℕ} 503 200 → false ≡ true
apart h = ap (λ n. n == 200) h

reported-code :
    (uptime : ℕ) (disk : Option ℕ) (cfg : Config) (q : Queue) (at : Option UtcTime)
    → ((reported uptime disk cfg q at (disk_reasons disk)).code ≡ 200) ↔ (is_low disk ≡ false)
unfolding reported disk_reasons
reported-code uptime none cfg q at = (λ h. refl, λ h. refl)
reported-code uptime (some mb) cfg q at = elim (Bool-cases (ltb mb 100)) [
  | inl low ↦ rw low (λ h. sym (apart h), λ h. cc h)
  | inr enough ↦ rw enough (λ h. refl, λ h. refl)
]

module _ (w : Surroundings) (clocks : Clocks) (uptime : ℕ) (disk : Option ℕ) (q : Queue) where
  health_of_iff :
      (c : Option Config) (r : Health)
      → health_of w clocks uptime disk q c ≡ ok r
      → (r.code ≡ 200) ↔ ((cfg : Config) × (c ≡ some cfg) × (is_low disk ≡ false))
  unfolding health_of unconfigured
  health_of_iff none r e =
      let v : unconfigured uptime disk ≡ r = cc e in
      (λ h. cc (apart (ap (λ x. x.code) v ∙ h)), λ (cfg, p, l). cc p)
  health_of_iff (some cfg) r e =
      let (at, known, e') = bind-eq-ok (next_utc_run w clocks cfg) _ e in
      let v : reported uptime disk cfg q at (disk_reasons disk) ≡ r = cc e' in
      let (to, from) = reported-code uptime disk cfg q at in
      (
        λ h. (cfg, refl, to (ap (λ x. x.code) v ∙ h)),
        λ (cfg', p, l). sym (ap (λ x. x.code) v) ∙ from l,
      )

  -- A healthz that answers, answers 200 exactly if the store has settings and the disk is not
  -- known to have less than 100 MB.
  pub healthz_iff :
      (mf : MultiFernet) (file : ConfigFile) (r : Health)
      → healthz w clocks mf file uptime disk q ≡ ok r
      → (r.code ≡ 200) ↔ ((cfg : Config) × (load mf file ≡ ok (some cfg)) × (is_low disk ≡ false))
  unfolding healthz
  healthz_iff mf file r e =
      let (c, loaded, e') = bind-eq-ok (load mf file) _ (lift_sound _ r e) in
      let (to, from) = health_of_iff c r e' in
      (
        λ h. (let (cfg, p, l) = to h in (cfg, loaded ∙ ap ok p, l)),
        λ (cfg, p, l). from (cfg, cc (loaded, p), l),
      )
