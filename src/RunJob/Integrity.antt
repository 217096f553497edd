-- ===== src/RunJob/Integrity.antt =====
-- bluewave/orchestrator.py, run_job: the keys of the two tables, whatever the server, the browser and
-- the file do.
use blue_waving.Runs.Lifecycle.{IdsBelow}
use blue_waving.Runs.{Outcome, set_outcome, is_unique, update_run, Session, RunRow, Db, AuditRow}
use blue_waving.Sink.{has_hash, insert_row, insert_batch, insert_batches}
use blue_waving.Sink.Laws.{insert_batch-UniqueHashes, UniqueHashes}
use blue_waving.Row.{Row}
use blue_waving.Base.{
  ℕ, ◌+◌, ◌≡◌, refl, ap, inl, inr, Bool, true, false, List, [], ◌∷◌, ◌++◌, arith, ◌==◌, Bool-cases,
  member, Distinct, any-append,
}

abbrev pub run_ids : List RunRow → List ℕ
run_ids [] = []
run_ids (r ∷ rs) = r.id ∷ run_ids rs

-- Every audit row is tagged with one of the ids.
abbrev pub KnownTags : List ℕ → List AuditRow → Type 0
KnownTags ids [] = Unit
KnownTags ids (a ∷ audit) = (member a.ingest_run_id ids ≡ true) × KnownTags ids audit

-- The keys of the schema hold: the ids of the runs are distinct and below the counter, a source and
-- date has one scheduled `ok` run at most, a hash is in the audit table once at most, and every
-- audit row is tagged with the id of a run.
pub record IsConsistent (db : Db) : Type 0 where
  pub ids_below : IdsBelow db.next_run db.runs
  pub ids_distinct : Distinct (run_ids db.runs)
  pub unique : is_unique db.runs ≡ true
  pub hashes : UniqueHashes db.audit
  pub tags : KnownTags (run_ids db.runs) db.audit

-- What holds of the session of a run between two of its statements.
pub record IsCoherent (run_id : ℕ) (s : Session) : Type 0 where
  pub committed : IsConsistent s.saved
  pub current : IsConsistent s.work
  pub has_run : member run_id (run_ids s.work.runs) ≡ true

pub run_ids-snoc :
    (rs : List RunRow) (r : RunRow) → run_ids (rs ++ r ∷ []) ≡ run_ids rs ++ r.id ∷ []
run_ids-snoc [] r = refl
run_ids-snoc (t ∷ rs) r = ap (λ l. t.id ∷ l) (run_ids-snoc rs r)

pub IdsBelow-snoc :
    (n : ℕ) (rs : List RunRow) (r : RunRow)
    → IdsBelow n rs
    → r.id ≡ n
    → IdsBelow (n + 1) (rs ++ r ∷ [])
IdsBelow-snoc n [] r b e = (omega arith, tt)
IdsBelow-snoc n (t ∷ rs) r b e = (omega (arith, b.0), IdsBelow-snoc n rs r b.1 e)

pub not_member_below : (n : ℕ) (rs : List RunRow) → IdsBelow n rs → member n (run_ids rs) ≡ false
not_member_below n [] b = refl
not_member_below n (t ∷ rs) b = ground (arith, b.0, not_member_below n rs b.1)

pub KnownTags-more :
    (ids more : List ℕ) (audit : List AuditRow)
    → KnownTags ids audit
    → KnownTags (ids ++ more) audit
KnownTags-more ids more [] k = tt
KnownTags-more ids more (a ∷ audit) k = (
  ground (arith, any-append (λ y. y == a.ingest_run_id) ids more),
  KnownTags-more ids more audit k.1,
)

KnownTags-snoc :
    (ids : List ℕ) (audit : List AuditRow) (a : AuditRow)
    → KnownTags ids audit
    → member a.ingest_run_id ids ≡ true
    → KnownTags ids (audit ++ a ∷ [])
KnownTags-snoc ids [] a k h = (h, tt)
KnownTags-snoc ids (b ∷ audit) a k h = (k.0, KnownTags-snoc ids audit a k.1 h)

-- update_run by set_outcome keeps the ids.
pub update_run-run_ids :
    (id now : ℕ) (o : Outcome) (rs : List RunRow)
    → run_ids (update_run id (set_outcome now o) rs) ≡ run_ids rs
unfolding update_run set_outcome
update_run-run_ids id now o [] = refl
update_run-run_ids id now o (r ∷ rs) = ground (arith, update_run-run_ids id now o rs)

pub update_run-IdsBelow :
    (n id now : ℕ) (o : Outcome) (rs : List RunRow)
    → IdsBelow n rs
    → IdsBelow n (update_run id (set_outcome now o) rs)
unfolding update_run set_outcome
update_run-IdsBelow n id now o [] b = tt
update_run-IdsBelow n id now o (r ∷ rs) b =
    (ground (arith, b.0), update_run-IdsBelow n id now o rs b.1)

insert_batch-KnownTags :
    (ids : List ℕ) (run_id : ℕ) (audit : List AuditRow) (rows : List Row)
    → member run_id ids ≡ true
    → KnownTags ids audit
    → KnownTags ids (insert_batch run_id audit rows)
unfolding insert_batch
insert_batch-KnownTags ids run_id audit [] h k = k
insert_batch-KnownTags ids run_id audit (r ∷ rows) h k =
    insert_batch-KnownTags ids run_id (insert_row run_id audit r) rows h (
      unfold insert_row in
      elim (Bool-cases (has_hash r.dedup_hash audit)) [
        | inl old ↦ rw old k
        | inr new ↦ rw new (KnownTags-snoc ids audit _ k h)
      ])

pub insert_batches_keep :
    (up : ℕ → Bool) (i run_id : ℕ) (ids : List ℕ) (audit : List AuditRow) (bs : List (List Row))
    → member run_id ids ≡ true
    → UniqueHashes audit
    → KnownTags ids audit
    → UniqueHashes (insert_batches up i run_id audit bs).1
      × KnownTags ids (insert_batches up i run_id audit bs).1
unfolding insert_batches
insert_batches_keep up i run_id ids audit [] h u k = (u, k)
insert_batches_keep up i run_id ids audit (b ∷ bs) h u k = elim (Bool-cases (up i)) [
  | inl taken ↦ rw taken (
      insert_batches_keep up (i + 1) run_id ids (insert_batch run_id audit b) bs h
        (insert_batch-UniqueHashes run_id audit b u)
        (insert_batch-KnownTags ids run_id audit b h k))
  | inr refused ↦ rw refused (u, k)
]
