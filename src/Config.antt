-- ===== src/Config.antt =====
-- bluewave/config.py: the settings and their encrypted store, a table of at most one row. Fernet is a
-- parameter.
pub mod Store
pub mod Saving
use blue_waving.Base.{
  ℕ, ◌+◌, Bool, true, false, Option, none, some, List, [], ◌∷◌, ◌++◌, ltb, ◌==◌, if◌then◌else◌,
  every, Text, is_empty, strip, Result, ok, err, ◌>>=◌,
}
use blue_waving.Exceptions.{Exn, value_error, other}

pub record Config : Type 0 where
  pub site_label : Text
  pub blueweb_url : Text
  pub blueweb_user : Text
  pub blueweb_password : Text
  pub operator_timezone : Text
  pub mysql_host : Text
  pub mysql_port : ℕ
  pub mysql_database : Text
  pub mysql_user : Text
  pub mysql_password : Text
  pub schedule_local : Text
  pub catch_up_cap_days : ℕ

-- cryptography.fernet.MultiFernet: `none` is InvalidToken.
pub record MultiFernet : Type 0 where
  pub encrypt : Text → Text
  pub decrypt : Text → Option Text

-- `raw.split(sep)`; the accumulator is the piece that is being read, backwards.
unfoldable pub split_from : ℕ → Text → Text → List Text
split_from sep acc [] = acc ∷ []
split_from sep acc (c ∷ s) = elim (c == sep) [
  | true ↦ acc ∷ split_from sep [] s
  | false ↦ split_from sep (acc ++ c ∷ []) s
]

unfoldable pub split : ℕ → Text → List Text
unfolding split_from
split sep s = split_from sep [] s

-- `[k.strip() … for k in pieces if k.strip()]`
unfoldable pub strip_pieces : List Text → List Text
strip_pieces [] = []
strip_pieces (p ∷ ps) =
    let s = strip p in let rest = strip_pieces ps in if is_empty s then rest else s ∷ rest

-- `.encode("ascii")` succeeds.
abbrev pub is_ascii : Text → Bool
is_ascii = every (λ c. ltb c 128)

unfoldable pub keys_of : List Text → Result Exn (List Text)
keys_of [] = err value_error
keys_of (k ∷ ks) = if every is_ascii (k ∷ ks) then ok (k ∷ ks) else err value_error

unfoldable pub parse_keys_env : Option Text → Result Exn (List Text)
unfolding split strip_pieces keys_of
parse_keys_env none = err value_error
parse_keys_env (some raw) =
    if is_empty (strip raw) then err value_error else keys_of (strip_pieces (split b',' raw))

-- A row of the table config.
pub record StoredConfig : Type 0 where
  pub site_label : Text
  pub blueweb_url : Text
  pub blueweb_user : Text
  pub blueweb_password_enc : Text
  pub operator_timezone : Text
  pub mysql_host : Text
  pub mysql_port : ℕ
  pub mysql_database : Text
  pub mysql_user : Text
  pub mysql_password_enc : Text
  pub schedule_local : Text
  pub catch_up_cap_days : ℕ

-- The file: the row with id 1, if there is one.
abbrev pub ConfigFile : Type 0
ConfigFile = Option StoredConfig

unfoldable pub exists : ConfigFile → Bool
exists none = false
exists (some row) = true

unfoldable pub or_invalid_token : Option Text → Result Exn Text
or_invalid_token none = err other
or_invalid_token (some t) = ok t

unfoldable pub decrypt : MultiFernet → Text → Result Exn Text
unfolding or_invalid_token
decrypt mf token = or_invalid_token (mf.decrypt token)

unfoldable pub load : MultiFernet → ConfigFile → Result Exn (Option Config)
unfolding decrypt
load mf none = ok none
load mf (some row) = do
  blueweb_password ← decrypt mf row.blueweb_password_enc
  mysql_password ← decrypt mf row.mysql_password_enc
  ok (
      some (record {
        site_label = row.site_label;
        blueweb_url = row.blueweb_url;
        blueweb_user = row.blueweb_user;
        blueweb_password = blueweb_password;
        operator_timezone = row.operator_timezone;
        mysql_host = row.mysql_host;
        mysql_port = row.mysql_port;
        mysql_database = row.mysql_database;
        mysql_user = row.mysql_user;
        mysql_password = mysql_password;
        schedule_local = row.schedule_local;
        catch_up_cap_days = row.catch_up_cap_days;
      }))

-- The values of the INSERT.
abbrev pub stored_of : MultiFernet → Config → StoredConfig
stored_of mf cfg = record {
  site_label = cfg.site_label;
  blueweb_url = cfg.blueweb_url;
  blueweb_user = cfg.blueweb_user;
  blueweb_password_enc = mf.encrypt cfg.blueweb_password;
  operator_timezone = cfg.operator_timezone;
  mysql_host = cfg.mysql_host;
  mysql_port = cfg.mysql_port;
  mysql_database = cfg.mysql_database;
  mysql_user = cfg.mysql_user;
  mysql_password_enc = mf.encrypt cfg.mysql_password;
  schedule_local = cfg.schedule_local;
  catch_up_cap_days = cfg.catch_up_cap_days;
}

-- The row is replaced, whatever the file held.
unfoldable pub save : MultiFernet → Config → ConfigFile → ConfigFile
save mf cfg file = some (stored_of mf cfg)

-- `refused` is what a statement of `save` raises, if one does; its transaction then leaves the file.
unfoldable pub save_again :
    MultiFernet → Option Exn → Option Config → ConfigFile → Result Exn ConfigFile
unfolding save
save_again mf refused none file = ok file
save_again mf none (some cfg) file = ok (save mf cfg file)
save_again mf (some e) (some cfg) file = err e

unfoldable pub reencrypt_all : MultiFernet → Option Exn → ConfigFile → Result Exn ConfigFile
unfolding save_again
reencrypt_all mf refused file = do cfg ← load mf file; save_again mf refused cfg file
