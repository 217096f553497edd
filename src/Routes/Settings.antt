-- ===== src/Routes/Settings.antt =====
-- bluewave/routes.py, `post_config`, with the probes of bluewave/probes.py.
pub mod Laws
pub mod Probed
pub mod Form
use blue_waving.Routes.Listing.{BootstrapReply, bootstrap_audit_table}
use blue_waving.Web.{raised, HttpError, http_exception, lift}
use blue_waving.Schema.Tables.{Server, Table}
use blue_waving.Base.{
  ℕ, String, ◌≡◌, Bool, true, false, not, ◌&&◌, ◌||◌, Option, none, some, List, [], ◌∷◌, leb,
  if◌then◌else◌, Text, is_empty, ℤ, pos, negsuc, Result, ok, err, ◌>>=◌,
}
use blue_waving.Config.{split, Config, MultiFernet, ConfigFile, load, save}
use blue_waving.Exceptions.{Exn}
use blue_waving.Scheduler.{int_of, pair_of, Surroundings, Sched, reconfigure}

-- The probes, of which only that of MySQL lets an exception out. The details that a probe tells are
-- not modelled.
pub record Probes : Type 0 where
  pub blueweb_http : Text → Bool
  pub mysql : Text → ℕ → Text → Text → Text → Result Exn Bool
  pub bluewave_login : Text → Text → Text → Bool

unfoldable pub after_mysql : Probes → Config → Bool → Bool × List (String × Bool)
after_mysql p cfg passed =
    if not passed
    then (false, ("blueweb_http", true) ∷ ("mysql", false) ∷ [])
    else if not (p.bluewave_login cfg.blueweb_url cfg.blueweb_user cfg.blueweb_password)
    then (false, ("blueweb_http", true) ∷ ("mysql", true) ∷ ("bluewave_login", false) ∷ [])
    else (true, ("blueweb_http", true) ∷ ("mysql", true) ∷ ("bluewave_login", true) ∷ [])

unfoldable pub triple_probe : Probes → Config → Result Exn (Bool × List (String × Bool))
unfolding after_mysql
triple_probe p cfg =
    if not (p.blueweb_http cfg.blueweb_url) then ok (false, ("blueweb_http", false) ∷ []) else do
      passed ←
          p.mysql cfg.mysql_host cfg.mysql_port cfg.mysql_database cfg.mysql_user cfg.mysql_password
      ok (after_mysql p cfg passed)

-- The password that a form field stands for: an empty one keeps the existing one.
unfoldable pub keep_or : Text → Option Text → Text
keep_or (c ∷ t) existing = c ∷ t
keep_or [] none = []
keep_or [] (some t) = t

abbrev pub blueweb_password_of : Option Config → Option Text
blueweb_password_of none = none
blueweb_password_of (some cfg) = some cfg.blueweb_password

abbrev pub mysql_password_of : Option Config → Option Text
mysql_password_of none = none
mysql_password_of (some cfg) = some cfg.mysql_password

-- The payload has the fields of Config.
unfoldable pub with_passwords : Config → Option Config → Config
unfolding keep_or
with_passwords payload existing = record payload {
  blueweb_password = keep_or payload.blueweb_password (blueweb_password_of existing);
  mysql_password = keep_or payload.mysql_password (mysql_password_of existing);
}

unfoldable pub has_passwords : Config → Result HttpError Config
has_passwords cfg =
    if is_empty cfg.blueweb_password || is_empty cfg.mysql_password
    then err (http_exception 400)
    else ok cfg

unfoldable pub new_config :
    Result HttpError Text → Config → Result Exn (Option Config) → Result HttpError Config
unfolding with_passwords has_passwords
new_config gate payload stored = do
  user ← gate
  existing ← lift stored
  has_passwords (with_passwords payload existing)

-- The answer: whether it was saved, what the probes found, and how the audit table is.
pub record ConfigReply : Type 0 where
  pub saved : Bool
  pub probes : List (String × Bool)
  pub schema : Option BootstrapReply

-- What post_config changes: the file of the store, the scheduler's job and the server's tables.
pub record Kept : Type 0 where
  pub file : ConfigFile
  pub sched : Sched
  pub tables : List Table

-- What the handler works with.
pub record Desk : Type 0 where
  pub probes : Probes
  pub around : Surroundings
  pub server : Server
  pub keys : MultiFernet

-- From the probes on. What reconfigure raises is swallowed.
unfoldable pub save_probed : Desk → Config → Bool × List (String × Bool) → Kept → ConfigReply × Kept
unfolding bootstrap_audit_table
save_probed desk cfg (overall_ok, report) k =
    if not overall_ok
    then (record { saved = false; probes = report; schema = none }, k)
    else let file' = save desk.keys cfg k.file in
      let made = bootstrap_audit_table desk.server k.tables in
      (
        record { saved = true; probes = report; schema = some made.0 },
        record {
          file = file';
          sched = (reconfigure desk.around desk.keys file' k.sched).1;
          tables = made.1;
        },
      )

-- What triple_probe raises leaves the handler.
unfoldable pub after_probes :
    Desk
    → Config
    → Result Exn (Bool × List (String × Bool))
    → Kept
    → Result HttpError ConfigReply × Kept
unfolding save_probed
after_probes desk cfg (err e) k = (err (raised e), k)
after_probes desk cfg (ok r) k = (ok (save_probed desk cfg r k).0, (save_probed desk cfg r k).1)

unfoldable pub probe_and_save :
    Desk → Result HttpError Config → Kept → Result HttpError ConfigReply × Kept
unfolding triple_probe after_probes
probe_and_save desk (err e) k = (err e, k)
probe_and_save desk (ok cfg) k = after_probes desk cfg (triple_probe desk.probes cfg) k

unfoldable pub post_config :
    Desk → Result HttpError Text → Config → Kept → Result HttpError ConfigReply × Kept
unfolding new_config probe_and_save
post_config desk gate payload k =
    probe_and_save desk (new_config gate payload (load desk.keys k.file)) k

-- All three probes succeed.
abbrev pub ProbesPass : Probes → Config → Type 0
ProbesPass p cfg =
    (p.blueweb_http cfg.blueweb_url ≡ true)
    × (p.mysql cfg.mysql_host cfg.mysql_port cfg.mysql_database cfg.mysql_user cfg.mysql_password
        ≡ ok true)
    × (p.bluewave_login cfg.blueweb_url cfg.blueweb_user cfg.blueweb_password ≡ true)

unfoldable pub in_range : ℕ → Option ℤ → Bool
in_range hi none = false
in_range hi (some (pos n)) = leb n hi
in_range hi (some (negsuc n)) = false

unfoldable pub fields_in_range : Result Exn (Text × Text) → Bool
unfolding in_range int_of
fields_in_range (err e) = false
fields_in_range (ok (h, m)) = in_range 23 (int_of h) && in_range 59 (int_of m)

-- The validator `_schedule_format` accepts.
unfoldable pub is_schedule : Text → Bool
unfolding fields_in_range pair_of
is_schedule v = fields_in_range (pair_of (split b':' v))
