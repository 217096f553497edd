-- ===== src/Probes/Laws.antt =====
-- bluewave/probes.py: which schema the MySQL probe accepts, and that the login probe is harmless.
use blue_waving.Base.{
  ℕ, ◌≡◌, refl, ap, Bool, true, false, Option, none, some, arith, Text, codes, text_eq_sound,
  Result, ok, err,
}
use blue_waving.Exceptions.{Exn}
use blue_waving.Action.Ensures.{
  Ensures, Any, Ensures-pure, Ensures-bind, Ensures-catch, Ensures-weaken,
}
use blue_waving.Auth.{starts_with}
use blue_waving.Driver.{Driver}
use blue_waving.Driver.Lawful.{Lawful, nothing}
use blue_waving.Login.Laws.{login_and_navigate-Ensures}
use blue_waving.Browse.Laws.{browse_raises, with_driver-Ensures}
use blue_waving.Probes.{
  has_collation, is_utf8mb4, accepts_schema, or_failed_probe, probe_mysql, probe_bluewave_login,
}

-- The server has the database in utf8mb4, with one of its collations.
pub record Unicode (row : Option (Option Text × Option Text)) : Type 0 where
  pub collation : Text
  pub is_there : row ≡ some (some (codes "utf8mb4"), some collation)
  pub is_utf8mb4_collation : starts_with (codes "utf8mb4_") collation ≡ true

accepts_schema_sound :
    (row : Option (Option Text × Option Text)) → accepts_schema row ≡ true → Unicode row
unfolding accepts_schema has_collation is_utf8mb4
accepts_schema_sound none h = cc
accepts_schema_sound (some (none, co)) h = cc
accepts_schema_sound (some (some cs, none)) h = ground arith
accepts_schema_sound (some (some cs, some co)) h = record {
  collation = co;
  is_there =
      ap (λ t. some (some t, some co)) (text_eq_sound cs (codes "utf8mb4") (ground (arith, h)));
  is_utf8mb4_collation = ground (arith, h);
}

or_failed_probe_sound : (e : Exn) → or_failed_probe e ≡ ok true → false ≡ true
unfolding or_failed_probe
or_failed_probe_sound Exn.database_error h = cc h
or_failed_probe_sound _ h = cc h

-- If the MySQL probe succeeds, the server answered with the row of the database, its character set
-- is utf8mb4 and its collation one of utf8mb4.
pub probe_mysql_sound :
    (answer : Result Exn (Option (Option Text × Option Text)))
    → probe_mysql answer ≡ ok true
    → (row : Option (Option Text × Option Text)) × (answer ≡ ok row) × Unicode row
unfolding probe_mysql
probe_mysql_sound (err e) h = cc (or_failed_probe_sound e h)
probe_mysql_sound (ok row) h = (row, refl, accepts_schema_sound row (cc h))

module _ {S : Type 0} {drv : Driver S} {P : S → Type 0} {safe : ℕ → Bool}
    (law : Lawful drv P safe) where
  pub probe_bluewave_login-Ensures :
      (url user password : Text)
      → Ensures P nothing Any (probe_bluewave_login drv url user password)
  unfolding probe_bluewave_login
  probe_bluewave_login-Ensures url user password =
      Ensures-catch {raised = browse_raises} _ _
        (Ensures-bind _ _
          (with_driver-Ensures law _ (
            Ensures-weaken _ (λ e h. ground arith) (λ a q. q)
              (login_and_navigate-Ensures law url user password 20 10)))
          (λ _ _. Ensures-pure true tt))
        (λ e h. Ensures-pure false tt)
