-- ===== src/Auth/Admission.antt =====
-- bluewave/hashpw.py and bluewave/auth.py together: the operator whose password the command has hashed
-- is let in.
use blue_waving.Auth.Laws.{verify-issue_csrf_token}
use blue_waving.Auth.{
  token_from, or_false, issue_csrf_token, both_ok, compare_digest, Request, encode_ascii, Libraries,
  require_csrf, get_or_empty, guard, check_credentials,
}
use blue_waving.Config.{is_ascii}
use blue_waving.Exceptions.{Exn}
use blue_waving.Tools.{hash_password}
use blue_waving.Tools.Hashpw.{hashpw_main, hash_given, print_hash, password_given, prints}
use blue_waving.Base.{
  ℕ, ◌+◌, ◌≤◌, String, ◌≡◌, refl, true, false, Option, none, some, List, arith, length, Text,
  is_empty, text_eq_refl, Result, ok, err,
}

-- What is printed is a hash that hashpw gave.
print_hash-prints : (r : Result Exn Text) (hash : Text) → print_hash r ≡ prints hash → r ≡ ok hash
unfolding print_hash
print_hash-prints (ok h) hash e = cc e
print_hash-prints (err x) hash e = ground (arith, e)

hash_password-eq-ok :
    (hashpw : Text → Result Exn Text) (pw hash : Text)
    → hash_password hashpw pw ≡ ok hash
    → (8 ≤ length pw) × (hashpw pw ≡ ok hash)
unfolding hash_password
hash_password-eq-ok hashpw pw hash e = ground (arith, e)

hash_given-prints :
    (hashpw : Text → Result Exn Text) (given : Option Text) (hash : Text)
    → hash_given hashpw given ≡ prints hash
    → (pw : Text) × (given ≡ some pw) × (8 ≤ length pw) × (hashpw pw ≡ ok hash)
unfolding hash_given
hash_given-prints hashpw none hash e = cc e
hash_given-prints hashpw (some pw) hash e =
    let (long, hashed) = hash_password-eq-ok hashpw pw hash (print_hash-prints _ hash e) in
    (pw, refl, long, hashed)

check_credentials_passes :
    (lib : Libraries) (env : String → Option Text) (user pw hash : Text)
    → env "WEB_PASS_HASH" ≡ some hash
    → env "WEB_USER" ≡ some user
    → is_ascii user ≡ true
    → is_ascii hash ≡ true
    → lib.checkpw pw hash ≡ some true
    → check_credentials lib env (record { username = user; password = pw }) ≡ ok user
unfolding check_credentials get_or_empty encode_ascii compare_digest both_ok or_false
check_credentials_passes lib env user pw hash in_env of_user ascii_user ascii_hash matches =
    rw (in_env, of_user, ascii_hash, ascii_user, text_eq_refl user, matches) refl

-- With a bcrypt whose hashes are ASCII and match their passwords, and a serializer that accepts
-- its own tokens from when they were made up to the age limit: where hashpw has printed a hash, it
-- was given a password of at least 8 characters; and with that hash and an ASCII user name in the
-- environment, a request with this name and password that carries a token issued before it and at
-- most eight hours ago passes the guard, as this user.
pub guard-hashpw_main :
    (lib : Libraries) (env : String → Option Text) (hashpw : Text → Result Exn Text)
    (args : List Text) (line pw1 pw2 hash user token : Text) (issued now : ℕ) (r : Request)
    → ((pw h : Text) → hashpw pw ≡ ok h → (is_ascii h ≡ true) × (lib.checkpw pw h ≡ some true))
    → ((key : Text) (max_age t t' : ℕ)
        → t ≤ t'
        → t' ≤ t + max_age
        → lib.loads key (lib.dumps key t) max_age t' ≡ true)
    → hashpw_main hashpw args line pw1 pw2 ≡ prints hash
    → env "WEB_PASS_HASH" ≡ some hash
    → env "WEB_USER" ≡ some user
    → is_ascii user ≡ true
    → issue_csrf_token lib env issued ≡ ok token
    → is_empty token ≡ false
    → issued ≤ now
    → now ≤ issued + 28800
    → token_from r.header_token r ≡ some token
    → (pw : Text) × (password_given args line pw1 pw2 ≡ some pw)
      × (8 ≤ length pw)
      × (guard lib env now (record { username = user; password = pw }) r ≡ ok user)
unfolding hashpw_main guard require_csrf
guard-hashpw_main lib env hashpw args line pw1 pw2 hash user token issued now r bcrypt accepts e
      in_env of_user ascii_user given some_token since young carries =
    let (pw, same, long, hashed) =
      hash_given-prints hashpw (password_given args line pw1 pw2) hash e in
    let (ascii_hash, matches) = bcrypt pw hash hashed in
    (
      pw,
      same,
      long,
      rw
          (
            check_credentials_passes lib env user pw hash in_env of_user ascii_user ascii_hash
                matches,
            carries,
            verify-issue_csrf_token lib env issued now token accepts some_token given since young,
          )
          refl,
    )
