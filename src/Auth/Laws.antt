-- ===== src/Auth/Laws.antt =====
-- bluewave/auth.py: the dependencies of a route that changes state.
use blue_waving.Base.{
  ℕ, ◌+◌, ◌≤◌, String, ◌≡◌, refl, sym, ap, ◌∙◌, Bool, true, false, Option, none, some, [], ◌∷◌,
  arith, Text, text_eq, is_empty, text_eq_sound, ok, bind-eq-ok,
}
use blue_waving.Auth.{
  Libraries, Credentials, Request, get_or_empty, or_false, compare_digest, encode_ascii, both_ok,
  check_credentials, csrf_key, csrf_max_age_s, issue_csrf_token, signed_by, verify_csrf_token,
  token_from, require_csrf, guard,
}

pub record Authentic (lib : Libraries) (env : String → Option Text) (creds : Credentials)
    : Type 0 where
  pub user : creds.username ≡ get_or_empty (env "WEB_USER")
  pub password : lib.checkpw creds.password (get_or_empty (env "WEB_PASS_HASH")) ≡ some true

-- The token of the request is signed with the first key and not too old.
pub record Signed (lib : Libraries) (env : String → Option Text) (now : ℕ) (o : Option Text)
    : Type 0 where
  pub token : Text
  pub key : Text
  pub sent : o ≡ some token
  pub first_key : csrf_key env ≡ ok key
  pub fresh : lib.loads key token csrf_max_age_s now ≡ true

compare_digest_sound : (s t : Text) (b : Bool) → compare_digest s t ≡ ok b → text_eq s t ≡ b
unfolding compare_digest
compare_digest_sound s t b e = ground (arith, e)

encode_ascii-eq-ok : (s t : Text) → encode_ascii s ≡ ok t → s ≡ t
unfolding encode_ascii
encode_ascii-eq-ok s t e = ground (arith, e)

both_ok-eq-ok : (b : Bool) (s t : Text) → both_ok b s ≡ ok t → (b ≡ true) × (s ≡ t)
unfolding both_ok
both_ok-eq-ok true s t e = (refl, cc e)
both_ok-eq-ok false s t e = cc e

or_false-true : (o : Option Bool) → or_false o ≡ true → o ≡ some true
unfolding or_false
or_false-true none e = cc e
or_false-true (some b) e = ap some e

check_credentials-eq-ok :
    (lib : Libraries) (env : String → Option Text) (creds : Credentials) (user : Text)
    → check_credentials lib env creds ≡ ok user
    → (user ≡ creds.username) × Authentic lib env creds
unfolding check_credentials
check_credentials-eq-ok lib env creds user e =
    let (hash, p, q) = bind-eq-ok (encode_ascii (get_or_empty (env "WEB_PASS_HASH"))) _ e in
    let (user_ok, p', q') =
      bind-eq-ok (compare_digest creds.username (get_or_empty (env "WEB_USER"))) _ q in
    let r = both_ok-eq-ok _ creds.username user q' in
    let same = compare_digest_sound creds.username (get_or_empty (env "WEB_USER")) user_ok p' in
    let both : (user_ok ≡ true) × (or_false (lib.checkpw creds.password hash) ≡ true) =
      (ground (arith, r.0), ground (arith, r.0)) in
    (
      sym r.1,
      record {
        user = text_eq_sound creds.username _ (same ∙ both.0);
        password = cc (
          encode_ascii-eq-ok (get_or_empty (env "WEB_PASS_HASH")) hash p,
          or_false-true (lib.checkpw creds.password hash) both.1,
        );
      },
    )

signed_by-eq-ok :
    (lib : Libraries) (now : ℕ) (token key : Text) (u : Unit {0})
    → signed_by lib now token key ≡ ok u
    → lib.loads key token csrf_max_age_s now ≡ true
unfolding signed_by
signed_by-eq-ok lib now token key u e = ground (arith, e)

verify_csrf_token-eq-ok :
    (lib : Libraries) (env : String → Option Text) (now : ℕ) (o : Option Text) (u : Unit {0})
    → verify_csrf_token lib env now o ≡ ok u
    → Signed lib env now o
unfolding verify_csrf_token
verify_csrf_token-eq-ok lib env now none u e = cc e
verify_csrf_token-eq-ok lib env now (some []) u e = cc e
verify_csrf_token-eq-ok lib env now (some (c ∷ t)) u e =
    let (key, p, q) = bind-eq-ok (csrf_key env) _ e in
    record {
      token = c ∷ t;
      key = key;
      sent = refl;
      first_key = p;
      fresh = signed_by-eq-ok lib now (c ∷ t) key u q;
    }

-- A request that passes comes from the user of the environment with a password that matches the
-- hash, and its token, from the header or else from the form, is signed with the first key and not
-- older than the limit.
pub guard-eq-ok :
    (lib : Libraries) (env : String → Option Text) (now : ℕ) (creds : Credentials) (r : Request)
    (user : Text)
    → guard lib env now creds r ≡ ok user
    → (user ≡ creds.username)
      × Authentic lib env creds
      × Signed lib env now (token_from r.header_token r)
unfolding guard require_csrf
guard-eq-ok lib env now creds r user e =
    let (name, p, q) = bind-eq-ok (check_credentials lib env creds) _ e in
    let (u, p', q') = bind-eq-ok (require_csrf lib env now r) _ q in
    let (same, auth) = check_credentials-eq-ok lib env creds name p in
    let last : name ≡ user = cc q' in
    (sym last ∙ same, auth, verify_csrf_token-eq-ok lib env now _ u p')

-- With a serializer that accepts its own tokens from when they were made up to the age limit, a token
-- that issue_csrf_token gave out and that is not empty passes verify_csrf_token until it is older than
-- eight hours.
pub verify-issue_csrf_token :
    (lib : Libraries) (env : String → Option Text) (issued now : ℕ) (token : Text)
    → ((key : Text) (max_age t t' : ℕ)
        → t ≤ t'
        → t' ≤ t + max_age
        → lib.loads key (lib.dumps key t) max_age t' ≡ true)
    → is_empty token ≡ false
    → issue_csrf_token lib env issued ≡ ok token
    → issued ≤ now
    → now ≤ issued + 28800
    → verify_csrf_token lib env now (some token) ≡ ok tt
unfolding verify_csrf_token issue_csrf_token signed_by
verify-issue_csrf_token lib env issued now [] accepts some_token e since h = cc some_token
verify-issue_csrf_token lib env issued now (c ∷ t) accepts some_token e since h =
    let (key, p, q) = bind-eq-ok (csrf_key env) _ e in
    let made : lib.dumps key issued ≡ c ∷ t = cc q in
    rw (p, sym made, accepts key csrf_max_age_s issued now since h)
