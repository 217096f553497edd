-- ===== src/Runs/Lifecycle.antt =====
-- bluewave/runs.py: start_run and finalize_run of one row, and the unique key.
use blue_waving.Base.{
  ℕ, ◌<◌, ◌≡◌, refl, ap, ◌∙◌, true, false, not, ◌&&◌, List, [], ◌∷◌, ◌++◌, arith, ◌==◌,
  if◌then◌else◌, ==_refl, any, any-append, ok, err,
}
use blue_waving.Exceptions.{database_error}
use blue_waving.Runs.{
  store_runs, RunRow, Session, Outcome, commit, is_terminal, is_ok_scheduled, collides, set_outcome,
  update_run, is_unique, finalize_run,
}

-- Every run has an id below the counter.
abbrev pub IdsBelow : ℕ → List RunRow → Type 0
IdsBelow n [] = Unit
IdsBelow n (r ∷ rs) = (r.id < n) × IdsBelow n rs

pub update_run-last :
    (f : RunRow → RunRow) (rs : List RunRow) (r : RunRow)
    → IdsBelow r.id rs
    → update_run r.id f (rs ++ r ∷ []) ≡ rs ++ f r ∷ []
unfolding update_run
update_run-last f [] r h = rw (==_refl r.id)
update_run-last f (t ∷ rs) r h =
    let e : (t.id == r.id) ≡ false = ground (arith, h.0) in
    rw e (ap (λ l. t ∷ l) (update_run-last f rs r h.1))

pub is_unique-snoc :
    (rs : List RunRow) (r : RunRow)
    → is_unique (rs ++ r ∷ []) ≡ (is_unique rs && not (any (λ t. collides t r) rs))
unfolding is_unique
is_unique-snoc [] r = refl
is_unique-snoc (t ∷ rs) r = ground (arith, is_unique-snoc rs r, any-append (collides t) rs (r ∷ []))

pub collides_not_ok :
    (rs : List RunRow) (r : RunRow) → is_ok_scheduled r ≡ false → any (λ t. collides t r) rs ≡ false
unfolding collides
collides_not_ok [] r h = refl
collides_not_ok (t ∷ rs) r h = rw h (ground (arith, collides_not_ok rs r h))

-- Where the server is reached, the runs before the last have ids below its id and no two of them
-- are scheduled `ok` runs of one source and date, and the status is terminal: finalize_run of the
-- last run sets its outcome and commits, unless the run would collide with a scheduled `ok`; then
-- it fails with a database error and changes nothing.
pub finalize_run-last :
    (now : ℕ) (o : Outcome) (rs : List RunRow) (r : RunRow) (s : Session)
    → s.work.runs ≡ rs ++ r ∷ []
    → IdsBelow r.id rs
    → is_unique rs ≡ true
    → is_terminal o.status ≡ true
    → finalize_run true now r.id o s ≡ (
        if any (λ t. collides t (set_outcome now o r)) rs then (err database_error, s) else (
          ok tt,
          commit (record s { work = record s.work { runs = rs ++ set_outcome now o r ∷ [] } }),
        ))
unfolding finalize_run store_runs
finalize_run-last now o rs r s e below u t =
    let rows : update_run r.id (set_outcome now o) s.work.runs ≡ rs ++ set_outcome now o r ∷ [] =
      ap (update_run r.id (set_outcome now o)) e ∙ update_run-last (set_outcome now o) rs r below in
    rw (t, rows, is_unique-snoc rs (set_outcome now o r), u) (ground arith)
