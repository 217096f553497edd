-- ===== src/Tools/Hashpw.antt =====
-- bluewave/hashpw.py, `main`: the command that prints the hash of a password.
use blue_waving.Base.{
  false, true, ℕ, Bool, ◌&&◌, Option, none, some, List, [], ◌∷◌, ◌==◌, if◌then◌else◌, any, Text,
  codes, text_eq, is_empty, Result, ok, err,
}
use blue_waving.Tools.{hash_password, read_interactive}
use blue_waving.Exceptions.{Exn, value_error}

-- `rstrip("\n")`
unfoldable pub rstrip_newlines : Text → Text
rstrip_newlines [] = []
rstrip_newlines (c ∷ t) =
    let rest = rstrip_newlines t in if is_empty rest && c == 10 then [] else c ∷ rest

-- `"--stdin" in args`
unfoldable pub has_stdin_flag : List Text → Bool
has_stdin_flag = any (text_eq (codes "--stdin"))

-- The password: a line of the standard input, or what is typed twice.
unfoldable pub password_given : List Text → Text → Text → Text → Option Text
unfolding has_stdin_flag rstrip_newlines read_interactive
password_given args line pw1 pw2 =
    if has_stdin_flag args then some (rstrip_newlines line) else read_interactive pw1 pw2

-- How the command ends: it prints a hash, or exits with a code, or an exception leaves it.
pub data HashEnding : Type 0 where
  prints : Text → HashEnding
  exits : ℕ → HashEnding
  raises : Exn → HashEnding

-- `except ValueError`
unfoldable pub is_value_error : Exn → Bool
is_value_error value_error = true
is_value_error _ = false

unfoldable pub print_hash : Result Exn Text → HashEnding
unfolding is_value_error
print_hash (ok hash) = prints hash
print_hash (err e) = if is_value_error e then exits 1 else raises e

unfoldable pub hash_given : (Text → Result Exn Text) → Option Text → HashEnding
unfolding print_hash hash_password
hash_given hashpw none = exits 1
hash_given hashpw (some pw) = print_hash (hash_password hashpw pw)

unfoldable pub hashpw_main : (Text → Result Exn Text) → List Text → Text → Text → Text → HashEnding
unfolding hash_given password_given
hashpw_main hashpw args line pw1 pw2 = hash_given hashpw (password_given args line pw1 pw2)
