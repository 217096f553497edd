-- ===== src/Web/Entry.antt =====
-- bluewave/web.py, `main`: the check that ends the process, and where the server listens.
use blue_waving.Web.{EnvError, validate_env}
use blue_waving.Base.{
  ℕ, String, ◌≡◌, refl, true, false, Option, none, some, List, [], ◌∷◌, ◌++◌, arith, ◌==◌,
  if◌then◌else◌, Text, codes, lacks, ℤ, Result, ok, ◌>>=◌,
}
use blue_waving.Exceptions.{Exn}
use blue_waving.Scheduler.{int_of, or_value_error}

unfoldable pub exit_code : List EnvError → Option ℕ
exit_code [] = none
exit_code (e ∷ es) = some 2

-- The exit code, or none to go on.
unfoldable pub enforce_env_or_exit : (String → Option Text) → Option ℕ
unfolding exit_code
enforce_env_or_exit env = exit_code (validate_env env)

-- `rpartition(":")` without the separator: what is before the last colon, and what is after it.
unfoldable pub rpartition_colon : Text → Option (Text × Text)
rpartition_colon [] = none
rpartition_colon (c ∷ t) =
    let rest = rpartition_colon t in
    elim rest [
      | some (before, after) ↦ some (c ∷ before, after)
      | none ↦ if c == b':' then some ([], t) else none
    ]

abbrev or_default : Text → Text → Text
or_default t [] = t
or_default t (c ∷ s) = c ∷ s

unfoldable pub listen_at : Text × Text → Result Exn (Text × ℤ)
unfolding or_value_error int_of
listen_at (host, port) = do
  p ← or_value_error (int_of (or_default (codes "8080") port))
  ok (or_default (codes "0.0.0.0") host, p)

-- Host and port, from WEB_BIND.
unfoldable pub bind_of : Option Text → Result Exn (Text × ℤ)
unfolding rpartition_colon listen_at
bind_of none = listen_at (codes "0.0.0.0", codes "8080")
bind_of (some bind) = elim (rpartition_colon bind) [
  | none ↦ listen_at ([], bind)
  | some p ↦ listen_at p
]

rpartition_colon-none : (t : Text) → lacks b':' t ≡ true → rpartition_colon t ≡ none
unfolding rpartition_colon
rpartition_colon-none [] h = refl
rpartition_colon-none (c ∷ t) h =
    let apart : (c == b':') ≡ false = ground (arith, h) in
    rw (rpartition_colon-none t (ground (arith, h)), apart) refl

-- What is put together with a colon is taken apart again, if the port has none.
pub rpartition_colon-append :
    (host port : Text)
    → lacks b':' port ≡ true
    → rpartition_colon (host ++ b':' ∷ port) ≡ some (host, port)
unfolding rpartition_colon
rpartition_colon-append [] port h = rw (rpartition_colon-none port h) refl
rpartition_colon-append (c ∷ host) port h = rw (rpartition_colon-append host port h) refl
