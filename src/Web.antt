-- ===== src/Web.antt =====
-- bluewave/web.py, the check of the environment; and what a request handler raises.
pub mod Entry
pub mod Gate
pub mod App
use blue_waving.Base.{
  ℕ, ◌+◌, ◌-◌, String, ◌≡◌, refl, ap, ◌↔◌, ◌⊎◌, inl, inr, Bool, true, false, not, ◌&&◌, Option,
  none, some, List, [], ◌∷◌, ◌++◌, arith, if◌then◌else◌, Bool-cases, every, append-nil_both, Text,
  codes, text_eq, is_empty, text_eq_sound, Result, ok, err,
}
use blue_waving.Exceptions.{Exn}

-- HTTPException with its status code, or another exception, which the server answers with a 500.
pub data HttpError : Type 0 where
  http_exception : ℕ → HttpError
  raised : Exn → HttpError

unfoldable pub lift {ℓ} : {A : Type ℓ} → Result Exn A → Result HttpError A
lift (ok a) = ok a
lift (err e) = err (raised e)

pub lift_sound : {A : Type 0} (m : Result Exn A) (a : A) → lift m ≡ ok a → m ≡ ok a
unfolding lift
lift_sound (ok b) a e = cc e
lift_sound (err x) a e = cc e

pub data EnvError : Type 0 where
  missing : String → EnvError
  not_allow_http : EnvError
  not_utc : Text → EnvError

abbrev pub required_env : List String
required_env = "CONFIG_ENC_KEYS" ∷ "WEB_USER" ∷ "WEB_PASS_HASH" ∷ "WEB_ALLOW_HTTP" ∷ []

-- `env.get(k)` is neither None nor empty.
unfoldable pub is_set : Option Text → Bool
is_set none = false
is_set (some t) = not (is_empty t)

unfoldable pub missing_of : (String → Option Text) → List String → List EnvError
unfolding is_set
missing_of env [] = []
missing_of env (k ∷ ks) =
    let rest = missing_of env ks in if is_set (env k) then rest else missing k ∷ rest

unfoldable pub allow_http_errors : Option Text → List EnvError
allow_http_errors none = []
allow_http_errors (some t) =
    if not (is_empty t) && not (text_eq t (codes "1")) then not_allow_http ∷ [] else []

unfoldable pub zone_errors : Option Text → List EnvError
zone_errors none = []
zone_errors (some t) = if text_eq t (codes "UTC") then [] else not_utc t ∷ []

unfoldable pub validate_env : (String → Option Text) → List EnvError
unfolding missing_of allow_http_errors zone_errors
validate_env env =
    missing_of env required_env
    ++ (allow_http_errors (env "WEB_ALLOW_HTTP") ++ zone_errors (env "TZ"))

-- What the worker needs to start.
pub record Environment (env : String → Option Text) : Type 0 where
  pub keys_set : is_set (env "CONFIG_ENC_KEYS") ≡ true
  pub user_set : is_set (env "WEB_USER") ≡ true
  pub hash_set : is_set (env "WEB_PASS_HASH") ≡ true
  pub allows_http : env "WEB_ALLOW_HTTP" ≡ some (codes "1")
  pub zone : (env "TZ" ≡ none) ⊎ (env "TZ" ≡ some (codes "UTC"))

missing_of_sound :
    (env : String → Option Text) (ks : List String)
    → missing_of env ks ≡ []
    → every (λ k. is_set (env k)) ks ≡ true
unfolding missing_of
missing_of_sound env [] e = refl
missing_of_sound env (k ∷ ks) e = elim (Bool-cases (is_set (env k))) [
  | inl set ↦ rw set (missing_of_sound env ks (rw set at e))
  | inr unset ↦ cc (rw unset at e)
]

allow_http_errors_sound :
    (o : Option Text) → is_set o ≡ true → allow_http_errors o ≡ [] → o ≡ some (codes "1")
unfolding allow_http_errors is_set
allow_http_errors_sound none s e = cc
allow_http_errors_sound (some t) s e = ap some (text_eq_sound t (codes "1") (ground (arith, s, e)))

zone_errors_sound : (o : Option Text) → zone_errors o ≡ [] → (o ≡ none) ⊎ (o ≡ some (codes "UTC"))
unfolding zone_errors
zone_errors_sound none e = inl refl
zone_errors_sound (some t) e = inr (ap some (text_eq_sound t (codes "UTC") (ground (arith, e))))

zone_errors-nil : (o : Option Text) → (o ≡ none) ⊎ (o ≡ some (codes "UTC")) → zone_errors o ≡ []
unfolding zone_errors
zone_errors-nil o (inl e) = rw e
zone_errors-nil o (inr e) = rw e

validate_env_sound : (env : String → Option Text) → validate_env env ≡ [] → Environment env
unfolding validate_env
validate_env_sound env e =
    let p = append-nil_both (missing_of env required_env) _ e in
    let q = append-nil_both (allow_http_errors (env "WEB_ALLOW_HTTP")) _ p.1 in
    let h = missing_of_sound env required_env p.0 in
    record {
      keys_set = ground (arith, h);
      user_set = ground (arith, h);
      hash_set = ground (arith, h);
      allows_http = allow_http_errors_sound (env "WEB_ALLOW_HTTP") (ground (arith, h)) q.0;
      zone = zone_errors_sound (env "TZ") q.1;
    }

validate_env-nil : (env : String → Option Text) → Environment env → validate_env env ≡ []
unfolding validate_env
validate_env-nil env h =
    rw (h.keys_set, h.user_set, h.hash_set, h.allows_http, zone_errors-nil (env "TZ") h.zone)

-- validate_env reports nothing exactly if the keys, the user and the hash are set, WEB_ALLOW_HTTP
-- is "1", and TZ is unset or "UTC".
pub validate_env_iff : (env : String → Option Text) → (validate_env env ≡ []) ↔ Environment env
validate_env_iff env = (validate_env_sound env, validate_env-nil env)
