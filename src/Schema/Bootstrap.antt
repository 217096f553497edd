-- ===== src/Schema/Bootstrap.antt =====
-- bluewave/schema.py, bootstrap_and_validate: what it makes of the tables of a server.
use blue_waving.Schema.{
  is_ok, expected_collation, expected_charset, TableRow, is_text, validate, diff_unless,
  validate_table_charset, bootstrap_and_validate,
}
use blue_waving.Schema.Creation.{validate_columns-ddl, ShowsTables}
use blue_waving.Schema.Tables.{
  table_row_of, columns_of, fetch_table_charset, fetch_columns, query, audit_table, first_error,
  ddl_audit_logs_runs, runs_table, unless_refused, ddl_audit_logs, shown_table, bootstrap,
  bootstrap_on, TableDef, Server, create_unless, Table, find_table, create_table,
}
use blue_waving.Base.{
  ◌≡◌, refl, inl, inr, true, false, none, some, List, [], ◌∷◌, ◌++◌, arith, Option-cases, Text,
  text_eq, text_eq_refl,
}

find_table-append :
    (name : Text) (ts : List Table) (t : Table)
    → text_eq t.name name ≡ false
    → find_table name (ts ++ t ∷ []) ≡ find_table name ts
unfolding find_table
find_table-append name [] t h = rw h
find_table-append name (u ∷ ts) t h = rw (find_table-append name ts t h)

find_table-last :
    (name : Text) (ts : List Table) (t : Table)
    → find_table name ts ≡ none
    → text_eq t.name name ≡ true
    → find_table name (ts ++ t ∷ []) ≡ some t
unfolding find_table
find_table-last name [] t e h = rw h
find_table-last name (u ∷ ts) t e h =
    ground (arith, e, find_table-last name ts t (ground (arith, e)) h)

find_table-first :
    (name : Text) (ts : List Table) (t u : Table)
    → find_table name ts ≡ some t
    → find_table name (ts ++ u ∷ []) ≡ some t
unfolding find_table
find_table-first name [] t u e = cc e
find_table-first name (v ∷ ts) t u e = ground (arith, e, find_table-first name ts t u)

create_table_absent :
    (s : Server) (d : TableDef) (ts : List Table)
    → find_table d.name ts ≡ none
    → create_table s d ts ≡ ts ++ shown_table s d ∷ []
unfolding create_table create_unless
create_table_absent s d ts e = rw e refl

create_table_there :
    (s : Server) (d : TableDef) (ts : List Table) (t : Table)
    → find_table d.name ts ≡ some t
    → create_table s d ts ≡ ts
unfolding create_table create_unless
create_table_there s d ts t e = rw e refl

-- A table that is there stays as it is.
create_table_keeps :
    (s : Server) (d : TableDef) (ts : List Table) (name : Text) (t : Table)
    → find_table name ts ≡ some t
    → find_table name (create_table s d ts) ≡ some t
create_table_keeps s d ts name t e = elim (Option-cases (find_table d.name ts)) [
  | inl absent ↦
      rw (create_table_absent s d ts absent) (find_table-first name ts t (shown_table s d) e)
  | inr (u, there) ↦ rw (create_table_there s d ts u there) e
]

create_table_makes :
    (s : Server) (d : TableDef) (ts : List Table)
    → (t : Table) × (find_table d.name (create_table s d ts) ≡ some t)
create_table_makes s d ts = elim (Option-cases (find_table d.name ts)) [
  | inl absent ↦ (
    shown_table s d,
    rw (create_table_absent s d ts absent)
        (find_table-last d.name ts (shown_table s d) absent (text_eq_refl d.name)),
  )
  | inr (t, there) ↦ (t, rw (create_table_there s d ts t there) there)
]

-- No statement of `bootstrap` is refused.
pub record Permits (s : Server) : Type 0 where
  pub audit : s.refuses_audit ≡ none
  pub runs : s.refuses_runs ≡ none
  pub commits : s.refuses_commit ≡ none

bootstrap_permitted :
    (s : Server) (ts : List Table)
    → Permits s
    → bootstrap s ts ≡ (none, create_table s ddl_audit_logs_runs (create_table s ddl_audit_logs ts))
unfolding bootstrap unless_refused first_error
bootstrap_permitted s ts p = rw (p.audit, p.runs, p.commits) refl

-- Where its statements are permitted, both tables are there after it.
pub bootstrap_on_makes :
    (s : Server) (ts : List Table)
    → Permits s
    → ((t : Table) × (find_table audit_table (bootstrap_on s ts).1 ≡ some t))
      × ((u : Table) × (find_table runs_table (bootstrap_on s ts).1 ≡ some u))
unfolding bootstrap_on
bootstrap_on_makes s ts p =
    let first = create_table s ddl_audit_logs ts in
    let (t, made) = create_table_makes s ddl_audit_logs ts in
    let (u, made') = create_table_makes s ddl_audit_logs_runs first in
    rw (bootstrap_permitted s ts p)
      ((t, create_table_keeps s ddl_audit_logs_runs first audit_table t made), (u, made'))

bootstrap_stable :
    (s : Server) (ts : List Table) → Permits s → bootstrap s (bootstrap s ts).1 ≡ bootstrap s ts
bootstrap_stable s ts p =
    let first = create_table s ddl_audit_logs ts in
    let both = create_table s ddl_audit_logs_runs first in
    let (t, made) = create_table_makes s ddl_audit_logs ts in
    let (u, made') = create_table_makes s ddl_audit_logs_runs first in
    let again =
      create_table_there s ddl_audit_logs both t
        (create_table_keeps s ddl_audit_logs_runs first audit_table t made) in
    let again' = create_table_there s ddl_audit_logs_runs both u made' in
    rw (bootstrap_permitted s ts p, bootstrap_permitted s both p, again, again') refl

-- Where its statements are permitted, bootstrap_and_validate a second time changes nothing more
-- and answers the same.
pub bootstrap_on_again :
    (s : Server) (ts : List Table)
    → Permits s
    → bootstrap_on s (bootstrap_on s ts).1 ≡ bootstrap_on s ts
unfolding bootstrap_on
bootstrap_on_again s ts p = rw (bootstrap_stable s ts p) refl

table_charset_shown :
    (r : TableRow)
    → r.character_set ≡ some expected_charset
    → r.collation ≡ some expected_collation
    → validate_table_charset (some r) ≡ []
unfolding validate_table_charset diff_unless is_text
table_charset_shown r cs co = rw (cs, co) refl

-- On a server that shows columns and tables as documented, permits the statements and answers the
-- queries, and that has no audit table yet, bootstrap_and_validate creates one that it finds in
-- order: the CREATE TABLE statement gives what the check expects.
pub bootstrap_on_creates :
    (s : Server) (ts : List Table)
    → ShowsTables s
    → Permits s
    → s.answers ≡ true
    → find_table audit_table ts ≡ none
    → (bootstrap_on s ts).0.is_bootstrapped ≡ true
unfolding bootstrap_on bootstrap_and_validate validate query fetch_columns fetch_table_charset
bootstrap_on_creates s ts shows p a absent =
    let first = create_table s ddl_audit_logs ts in
    let made : find_table audit_table first ≡ some (shown_table s ddl_audit_logs) =
      rw (create_table_absent s ddl_audit_logs ts absent) (
        find_table-last audit_table ts (shown_table s ddl_audit_logs) absent
          (text_eq_refl audit_table)) in
    let both =
      create_table_keeps s ddl_audit_logs_runs first audit_table (shown_table s ddl_audit_logs)
        made in
    rw (bootstrap_permitted s ts p, both, a)
      (unfold columns_of table_row_of in
        rw
          (
            table_charset_shown (s.shows_table ddl_audit_logs) (shows.table_charset ddl_audit_logs)
                (shows.table_collation ddl_audit_logs),
            validate_columns-ddl s shows,
          )
          (unfold is_ok in refl))
