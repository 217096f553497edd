-- ===== src/Routes/Settings/Laws.antt =====
-- bluewave/routes.py, post_config: the store and the daily job.
use blue_waving.Routes.Settings.{
  new_config, ProbesPass, ConfigReply, triple_probe, save_probed, probe_and_save, post_config,
  is_schedule, in_range, fields_in_range, after_probes, after_mysql, Desk, Probes, Kept,
}
use blue_waving.Base.{
  ℕ, ◌≤◌, String, ◌≡◌, refl, ap, ◌∙◌, inl, inr, Bool, true, false, Option, none, some, List, arith,
  Bool-cases, Text, ℤ, pos, negsuc, Result, ok, err, bind-eq-ok,
}
use mathlib.Core.Path.{subst}
use blue_waving.Routes.Listing.{bootstrap_audit_table}
use blue_waving.Config.{Config, MultiFernet, ConfigFile, load, save, split}
use blue_waving.Config.Store.{Reads, load-save}
use blue_waving.Web.{HttpError}
use blue_waving.Exceptions.{Exn}
use blue_waving.Scheduler.{
  Surroundings, Sched, Job, reconfigure, reconfigure_with, register_daily, registered, daily_job,
  pair_of, int_of, or_value_error, zone_info, cron_trigger,
}

after_mysql_passes :
    (p : Probes) (cfg : Config) (passed : Bool)
    → (after_mysql p cfg passed).0 ≡ true
    → (passed ≡ true)
      × (p.bluewave_login cfg.blueweb_url cfg.blueweb_user cfg.blueweb_password ≡ true)
unfolding after_mysql
after_mysql_passes p cfg passed h = (ground (arith, h), ground (arith, h))

triple_probe-ProbesPass :
    (p : Probes) (cfg : Config) (r : Bool × List (String × Bool))
    → triple_probe p cfg ≡ ok r
    → r.0 ≡ true
    → ProbesPass p cfg
unfolding triple_probe
triple_probe-ProbesPass p cfg r e pass = elim (Bool-cases (p.blueweb_http cfg.blueweb_url)) [
  | inr closed ↦ cc (ap first_of (rw closed at e), pass)
  | inl open' ↦
      let (passed, mysql, after) =
        bind-eq-ok
          (p.mysql cfg.mysql_host cfg.mysql_port cfg.mysql_database cfg.mysql_user
            cfg.mysql_password)
          (λ passed. ok (after_mysql p cfg passed)) (rw open' at e) in
      let good : (after_mysql p cfg passed).0 ≡ true = ap first_of after ∙ pass in
      let (both, login) = after_mysql_passes p cfg passed good in (open', mysql ∙ ap ok both, login)
]
  where
    first_of : Result Exn (Bool × List (String × Bool)) → Bool
    first_of (ok a) = a.0
    first_of (err x) = false

reconfigure-registered :
    (w : Surroundings) (mf : MultiFernet) (file : ConfigFile) (cfg : Config) (old : Option Job)
    (job : Job)
    → load mf file ≡ ok (some cfg)
    → daily_job w cfg ≡ ok job
    → reconfigure w mf file (some old) ≡ (ok tt, some (some job))
unfolding reconfigure reconfigure_with register_daily registered
reconfigure-registered w mf file cfg old job e j = rw (e, j)

-- What saving settings has done.
pub record Saved (desk : Desk) (gate : Result HttpError Text) (payload : Config) (k k' : Kept)
    (reply : ConfigReply) : Type 0 where
  pub cfg : Config
  pub accepted : new_config gate payload (load desk.keys k.file) ≡ ok cfg
  pub probed : ProbesPass desk.probes cfg
  pub loads : load desk.keys k'.file ≡ ok (some cfg)
  pub rescheduled :
      (old : Option Job) (job : Job)
      → k.sched ≡ some old
      → daily_job desk.around cfg ≡ ok job
      → k'.sched ≡ some (some job)
  pub bootstrapped :
      (reply.schema ≡ some (bootstrap_audit_table desk.server k.tables).0)
      × (k'.tables ≡ (bootstrap_audit_table desk.server k.tables).1)

save_probed-Saved :
    (desk : Desk) (gate : Result HttpError Text) (payload cfg : Config) (k : Kept)
    (r : Bool × List (String × Bool))
    → Reads desk.keys desk.keys
    → new_config gate payload (load desk.keys k.file) ≡ ok cfg
    → triple_probe desk.probes cfg ≡ ok r
    → (save_probed desk cfg r k).0.saved ≡ true
    → Saved desk gate payload k (save_probed desk cfg r k).1 (save_probed desk cfg r k).0
unfolding save_probed
save_probed-Saved desk gate payload cfg k (false, report) reads e t h = cc h
save_probed-Saved desk gate payload cfg k (true, report) reads e t h = record {
  cfg = cfg;
  accepted = e;
  probed = triple_probe-ProbesPass desk.probes cfg (true, report) t refl;
  loads = load-save desk.keys desk.keys cfg k.file reads;
  rescheduled = λ old job o j. rw o (
      ap (λ (r : Result Exn (Unit {0}) × Sched). r.1)
        (reconfigure-registered desk.around desk.keys (save desk.keys cfg k.file) cfg old job
          (load-save desk.keys desk.keys cfg k.file reads) j));
  bootstrapped = (refl, refl);
}

after_probes-Saved :
    (desk : Desk) (gate : Result HttpError Text) (payload cfg : Config) (k : Kept)
    (t : Result Exn (Bool × List (String × Bool))) (reply : ConfigReply)
    → Reads desk.keys desk.keys
    → new_config gate payload (load desk.keys k.file) ≡ ok cfg
    → triple_probe desk.probes cfg ≡ t
    → (after_probes desk cfg t k).0 ≡ ok reply
    → reply.saved ≡ true
    → Saved desk gate payload k (after_probes desk cfg t k).1 reply
unfolding after_probes
after_probes-Saved desk gate payload cfg k (err x) reply reads c t e h = cc e
after_probes-Saved desk gate payload cfg k (ok r) reply reads c t e h =
    let same : (save_probed desk cfg r k).0 ≡ reply = cc e in
    subst (Saved desk gate payload k (save_probed desk cfg r k).1) same (
      save_probed-Saved desk gate payload cfg k r reads c t
        (ap (λ (a : ConfigReply). a.saved) same ∙ h))

probe_and_save-Saved :
    (desk : Desk) (gate : Result HttpError Text) (payload : Config) (k : Kept)
    (r : Result HttpError Config) (reply : ConfigReply)
    → Reads desk.keys desk.keys
    → new_config gate payload (load desk.keys k.file) ≡ r
    → (probe_and_save desk r k).0 ≡ ok reply
    → reply.saved ≡ true
    → Saved desk gate payload k (probe_and_save desk r k).1 reply
unfolding probe_and_save
probe_and_save-Saved desk gate payload k (err x) reply reads c e h = cc e
probe_and_save-Saved desk gate payload k (ok cfg) reply reads c e h =
    after_probes-Saved desk gate payload cfg k (triple_probe desk.probes cfg) reply reads c refl e h

-- With a store that decrypts what it encrypts: if post_config answers that the settings are saved,
-- the form was accepted, all three probes of the new settings passed, the store loads exactly
-- these settings, and a scheduler that runs holds their daily job, if they give one.
pub post_config-Saved :
    (desk : Desk) (gate : Result HttpError Text) (payload : Config) (k : Kept) (reply : ConfigReply)
    → Reads desk.keys desk.keys
    → (post_config desk gate payload k).0 ≡ ok reply
    → reply.saved ≡ true
    → Saved desk gate payload k (post_config desk gate payload k).1 reply
unfolding post_config
post_config-Saved desk gate payload k reply reads e h =
    probe_and_save-Saved desk gate payload k (new_config gate payload (load desk.keys k.file)) reply
      reads refl e h

save_probed-kept :
    (desk : Desk) (cfg : Config) (r : Bool × List (String × Bool)) (k : Kept)
    → (save_probed desk cfg r k).0.saved ≡ false
    → (save_probed desk cfg r k).1 ≡ k
unfolding save_probed
save_probed-kept desk cfg (true, report) k h = cc h
save_probed-kept desk cfg (false, report) k h = refl

after_probes-kept :
    (desk : Desk) (cfg : Config) (t : Result Exn (Bool × List (String × Bool))) (k : Kept)
    → ((reply : ConfigReply) → (after_probes desk cfg t k).0 ≡ ok reply → reply.saved ≡ false)
    → (after_probes desk cfg t k).1 ≡ k
unfolding after_probes
after_probes-kept desk cfg (err x) k h = refl
after_probes-kept desk cfg (ok r) k h = save_probed-kept desk cfg r k (h _ refl)

probe_and_save-kept :
    (desk : Desk) (r : Result HttpError Config) (k : Kept)
    → ((reply : ConfigReply) → (probe_and_save desk r k).0 ≡ ok reply → reply.saved ≡ false)
    → (probe_and_save desk r k).1 ≡ k
unfolding probe_and_save
probe_and_save-kept desk (err x) k h = refl
probe_and_save-kept desk (ok cfg) k h =
    after_probes-kept desk cfg (triple_probe desk.probes cfg) k h

-- If post_config answers anything else, an error or failed probes, the store, the scheduler and the
-- tables are as they were.
pub post_config-kept :
    (desk : Desk) (gate : Result HttpError Text) (payload : Config) (k : Kept)
    → ((reply : ConfigReply) → (post_config desk gate payload k).0 ≡ ok reply → reply.saved ≡ false)
    → (post_config desk gate payload k).1 ≡ k
unfolding post_config
post_config-kept desk gate payload k h =
    probe_and_save-kept desk (new_config gate payload (load desk.keys k.file)) k h

in_range-cases :
    (hi : ℕ) (o : Option ℤ) → in_range hi o ≡ true → (n : ℕ) × (o ≡ some (pos n)) × (n ≤ hi)
unfolding in_range
in_range-cases hi none h = cc h
in_range-cases hi (some (pos n)) h = (n, refl, ground (arith, h))
in_range-cases hi (some (negsuc n)) h = cc h

-- The two fields of a schedule, as numbers.
pub record Fields (r : Result Exn (Text × Text)) : Type 0 where
  pub hh : Text
  pub mm : Text
  pub h : ℕ
  pub m : ℕ
  pub two : r ≡ ok (hh, mm)
  pub hour : int_of hh ≡ some (pos h)
  pub minute : int_of mm ≡ some (pos m)
  pub hour_max : h ≤ 23
  pub minute_max : m ≤ 59

pub fields_in_range-Fields : (r : Result Exn (Text × Text)) → fields_in_range r ≡ true → Fields r
unfolding fields_in_range
fields_in_range-Fields (err e) q = cc q
fields_in_range-Fields (ok (hh, mm)) q =
    let a : in_range 23 (int_of hh) ≡ true = ground (arith, q) in
    let b : in_range 59 (int_of mm) ≡ true = ground (arith, q) in
    let (h, eh, lh) = in_range-cases 23 (int_of hh) a in
    let (m, em, lm) = in_range-cases 59 (int_of mm) b in
    record {
      hh = hh;
      mm = mm;
      h = h;
      m = m;
      two = refl;
      hour = eh;
      minute = em;
      hour_max = lh;
      minute_max = lm;
    }

-- With a CronTrigger that takes every hour up to 23 and minute up to 59, a form whose schedule and
-- zone pass the validators has a daily job.
pub is_schedule-daily_job :
    (w : Surroundings) (cfg : Config)
    → ((h m : ℕ) → h ≤ 23 → m ≤ 59 → w.takes_cron (pos h) (pos m) ≡ true)
    → is_schedule cfg.schedule_local ≡ true
    → w.knows_zone cfg.operator_timezone ≡ true
    → (job : Job) × (daily_job w cfg ≡ ok job)
unfolding daily_job zone_info or_value_error cron_trigger is_schedule
is_schedule-daily_job w cfg takes ok_schedule known =
    let f = fields_in_range-Fields (pair_of (split b':' cfg.schedule_local)) ok_schedule in
    (
      record { hour = pos f.h; minute = pos f.m; zone = cfg.operator_timezone },
      rw (f.two, known, f.hour, f.minute, takes f.h f.m f.hour_max f.minute_max),
    )
