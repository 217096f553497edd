-- ===== src/Tools.antt =====
-- The command line tools and small services: bluewave/rotate_config.py, bluewave/hashpw.py,
-- bluewave/screenshots.py and bluewave/logging_setup.py. bcrypt and the construction of a Fernet are
-- parameters.
pub mod Laws
pub mod Hashpw
use blue_waving.Base.{
  ℕ, ◌+◌, ◌-◌, Bool, true, false, Option, none, some, List, [], ◌∷◌, ◌++◌, ltb, leb, ◌==◌,
  if◌then◌else◌, length, take, Text, codes, text_eq, Result, ok, err, ◌>>=◌,
}
use blue_waving.Exceptions.{Exn, value_error}
use blue_waving.Auth.{is_in}
use blue_waving.Config.{MultiFernet, ConfigFile, parse_keys_env, load, reencrypt_all}

-- `main` of rotate_config: the exit code, and the file it leaves.
unfoldable pub rewritten : ConfigFile → Result Exn ConfigFile → ℕ × ConfigFile
rewritten file (err e) = (1, file)
rewritten file (ok file') = (0, file')

unfoldable pub rotate_loaded : MultiFernet → Option Exn → ConfigFile → Bool → ℕ × ConfigFile
unfolding rewritten reencrypt_all
rotate_loaded mf refused file true = rewritten file (reencrypt_all mf refused file)
rotate_loaded mf refused file false = (2, file)

unfoldable pub is_configured : {A : Type 0} → Option A → Bool
is_configured none = false
is_configured (some a) = true

unfoldable pub rotate_config :
    (List Text → Result Exn MultiFernet)
    → Option Exn
    → Option Text
    → ConfigFile
    → Result Exn (ℕ × ConfigFile)
unfolding rotate_loaded is_configured parse_keys_env load
rotate_config build_multifernet refused raw file = do
  keys ← parse_keys_env raw
  mf ← build_multifernet keys
  cfg ← load mf file
  ok (rotate_loaded mf refused file (is_configured cfg))

abbrev pub min_password_length : ℕ
min_password_length = 8

unfoldable pub hash_password : (Text → Result Exn Text) → Text → Result Exn Text
hash_password hashpw plaintext =
    if ltb (length plaintext) min_password_length then err value_error else hashpw plaintext

-- `_read_interactive`: `none` is the exit with code 1.
unfoldable pub read_interactive : Text → Text → Option Text
read_interactive pw1 pw2 = if text_eq pw1 pw2 then some pw1 else none

abbrev pub max_kept : ℕ
max_kept = 60

-- A regular file of the directory for screenshots.
pub record Png : Type 0 where
  pub path : ℕ
  pub mtime : ℕ

-- `sorted` by the time of the last change, which keeps the order of files with the same time.
unfoldable pub insert_png : Png → List Png → List Png
insert_png f [] = f ∷ []
insert_png f (g ∷ gs) =
    let rest = insert_png f gs in if leb f.mtime g.mtime then f ∷ g ∷ gs else g ∷ rest

unfoldable pub sort_pngs : List Png → List Png
unfolding insert_png
sort_pngs [] = []
sort_pngs (f ∷ fs) = insert_png f (sort_pngs fs)

-- The PNG files of a directory that exists or not, the oldest first.
unfoldable pub list_pngs : Option (List Png) → List Png
unfolding sort_pngs
list_pngs none = []
list_pngs (some fs) = sort_pngs fs

-- The loop over the files to remove: those that are removed.
unfoldable pub unlink_pngs : (ℕ → Bool) → List Png → List Png
unlink_pngs can_unlink [] = []
unlink_pngs can_unlink (f ∷ fs) =
    let rest = unlink_pngs can_unlink fs in if can_unlink f.path then f ∷ rest else rest

-- What gc removes; it returns their number.
unfoldable pub gc : (ℕ → Bool) → Option (List Png) → ℕ → List Png
unfolding list_pngs unlink_pngs
gc can_unlink directory keep =
    let files = list_pngs directory in
    if leb (length files) keep
    then []
    else unlink_pngs can_unlink (take (length files - keep) files)

-- `msg.split(" ", 1)[0]`
unfoldable pub first_word : Text → Text
first_word [] = []
first_word (c ∷ t) = let rest = first_word t in if c == b' ' then [] else c ∷ rest

abbrev pub redacted : Text
redacted = codes "[redacted: payload would have contained card_number]"

pub record LogLine : Type 0 where
  pub level : Text
  pub event : Text
  pub message : Text

-- JsonFormatter.format without the time, for a record whose `msg` is a string; `message` is what
-- getMessage makes of it.
unfoldable pub format_record : Text → Text → Text → Text → LogLine
unfolding first_word is_in
format_record level name msg message = record {
  level = level;
  event = name ++ (codes "." ++ first_word msg);
  message = if is_in (codes "card_number") message then redacted else message;
}
