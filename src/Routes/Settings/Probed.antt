-- ===== src/Routes/Settings/Probed.antt =====
-- bluewave/routes.py, post_config, with the three probes of bluewave/probes.py in their places.
use blue_waving.Routes.Settings.Laws.{post_config-Saved, Saved}
use blue_waving.Config.{Config}
use blue_waving.Routes.Settings.{post_config, ProbesPass, ConfigReply, Probes, Kept, Desk}
use blue_waving.Probes.{probe_mysql, probe_bluewave_login, probe_blueweb_http}
use blue_waving.Probes.Laws.{probe_mysql_sound, Unicode}
use blue_waving.Config.Store.{Reads}
use blue_waving.Web.{HttpError}
use blue_waving.Exceptions.{Exn}
use blue_waving.Base.{
  ℕ, ◌<◌, ◌≡◌, refl, ap, Bool, true, false, Option, arith, Text, Result, ok, err,
}
use mathlib.Core.Path.{subst}
use blue_waving.Driver.{Driver}

unfoldable pub returned_true : Result Exn Bool → Bool
returned_true (err e) = false
returned_true (ok b) = b

-- What the outside answers to the probes: the web server to a HEAD request, MySQL to the queries, and
-- the site to a browser that starts at `site`.
pub record Outside (S : Type 0) : Type 0 where
  pub http : Text → Result Exn ℕ
  pub schemata : Text → ℕ → Text → Text → Text → Result Exn (Option (Option Text × Option Text))
  pub driver : Driver S
  pub site : S

unfoldable pub probes_of : {S : Type 0} → Outside S → Probes
unfolding returned_true
probes_of o = record {
  blueweb_http = λ url. probe_blueweb_http (o.http url);
  mysql =
      λ host port database user password. probe_mysql (o.schemata host port database user password);
  bluewave_login =
      λ url user password. returned_true (probe_bluewave_login o.driver url user password o.site).0;
}

-- The settings that a store loads have been tried: the web server answers below 500, the database is
-- in utf8mb4, and a browser has logged in.
pub record Tried {S : Type 0} (o : Outside S) (cfg : Config) : Type 0 where
  pub code : ℕ
  pub answered : o.http cfg.blueweb_url ≡ ok code
  pub not_failing : code < 500
  pub row : Option (Option Text × Option Text)
  pub selected :
      o.schemata cfg.mysql_host cfg.mysql_port cfg.mysql_database cfg.mysql_user cfg.mysql_password
      ≡ ok row
  pub unicode : Unicode row
  pub logged_in :
      (probe_bluewave_login o.driver cfg.blueweb_url cfg.blueweb_user cfg.blueweb_password o.site).0
      ≡ ok true

http_sound :
    (r : Result Exn ℕ) → probe_blueweb_http r ≡ true → (code : ℕ) × (r ≡ ok code) × (code < 500)
unfolding probe_blueweb_http
http_sound (err e) h = cc h
http_sound (ok code) h = (code, refl, ground (arith, h))

returned_true_sound : (r : Result Exn Bool) → returned_true r ≡ true → r ≡ ok true
unfolding returned_true
returned_true_sound (err e) h = cc h
returned_true_sound (ok b) h = ap ok h

ProbesPass-Tried :
    {S : Type 0} (o : Outside S) (cfg : Config) → ProbesPass (probes_of o) cfg → Tried o cfg
unfolding probes_of
ProbesPass-Tried o cfg (http, mysql, login) =
    let (code, answered, low) = http_sound (o.http cfg.blueweb_url) http in
    let (row, selected, unicode) = probe_mysql_sound _ mysql in
    record {
      code = code;
      answered = answered;
      not_failing = low;
      row = row;
      selected = selected;
      unicode = unicode;
      logged_in = returned_true_sound _ login;
    }

-- With a store that decrypts what it encrypts: if post_config answers that the settings are saved,
-- the form was accepted; the store loads exactly its settings; they have been tried: the web
-- server answered their URL with a status below 500, the server showed their database in utf8mb4
-- with one of its collations, and a browser logged in with their user; a scheduler that runs holds
-- their daily job, if they give one; and the reply tells how the audit table is.
pub post_config-Tried :
    {S : Type 0} (o : Outside S) (desk : Desk) (gate : Result HttpError Text) (payload : Config)
    (k : Kept) (reply : ConfigReply)
    → desk.probes ≡ probes_of o
    → Reads desk.keys desk.keys
    → (post_config desk gate payload k).0 ≡ ok reply
    → reply.saved ≡ true
    → (s : Saved desk gate payload k (post_config desk gate payload k).1 reply) × Tried o s.cfg
post_config-Tried o desk gate payload k reply same reads e h =
    let s = post_config-Saved desk gate payload k reply reads e h in
    (s, ProbesPass-Tried o s.cfg (subst (λ p. ProbesPass p s.cfg) same s.probed))
