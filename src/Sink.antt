-- ===== src/Sink.antt =====
-- bluewave/sink.py: the idempotent batch insert into z_audit_logs_efk.
pub mod Laws
pub mod Counts
use blue_waving.Base.{
  ℕ, zero, suc, ◌+◌, Bool, true, false, List, [], ◌∷◌, ◌++◌, ◌==◌, if◌then◌else◌, length, take,
  drop, any, count_if, Text, text_eq, ℤ, pos, sub_ℕ, Result, ok, err,
}
use blue_waving.Row.{Row}
use blue_waving.Exceptions.{Exn, value_error, database_error}
use blue_waving.Runs.{AuditRow, Session}

abbrev pub default_batch_size : ℕ
default_batch_size = 500

-- _chunks for a size that is not 0. Each chunk takes a row at least, so the length is fuel enough.
unfoldable pub chunks_from : ℕ → ℕ → List Row → List (List Row)
chunks_from zero size rows = []
chunks_from (suc fuel) size [] = []
chunks_from (suc fuel) size (r ∷ rows) =
    take size (r ∷ rows) ∷ chunks_from fuel size (drop size (r ∷ rows))

unfoldable pub chunks : ℕ → List Row → List (List Row)
unfolding chunks_from
chunks size rows = chunks_from (length rows) size rows

-- uk_dedup_hash finds a row.
unfoldable pub has_hash : Text → List AuditRow → Bool
has_hash h = any (λ a. text_eq a.row.dedup_hash h)

-- `INSERT … ON DUPLICATE KEY UPDATE id = id` of one row
unfoldable pub insert_row : ℕ → List AuditRow → Row → List AuditRow
unfolding has_hash
insert_row run_id audit r =
    if has_hash r.dedup_hash audit
    then audit
    else audit ++ record { row = r; ingest_run_id = run_id } ∷ []

-- `executemany`
unfoldable pub insert_batch : ℕ → List AuditRow → List Row → List AuditRow
unfolding insert_row
insert_batch run_id audit [] = audit
insert_batch run_id audit (r ∷ rows) = insert_batch run_id (insert_row run_id audit r) rows

-- The loop over the batches. `up i` says whether the server takes batch i; a batch that it refuses
-- inserts nothing and ends the loop with an exception.
unfoldable pub insert_batches :
    (ℕ → Bool) → ℕ → ℕ → List AuditRow → List (List Row) → Bool × List AuditRow
unfolding insert_batch
insert_batches up i run_id audit [] = (true, audit)
insert_batches up i run_id audit (b ∷ batches) =
    let rest = insert_batches up (i + 1) run_id (insert_batch run_id audit b) batches in
    if up i then rest else (false, audit)

-- `SELECT COUNT(*) … WHERE ingest_run_id = run_id`
unfoldable pub count_run : ℕ → List AuditRow → ℕ
count_run run_id = count_if (λ a. a.ingest_run_id == run_id)

unfoldable pub counted : ℕ → ℕ → Bool × List AuditRow → Result Exn (ℕ × ℤ)
unfolding count_run
counted run_id n (false, audit) = err database_error
counted run_id n (true, audit) = ok (count_run run_id audit, sub_ℕ n (count_run run_id audit))

-- `range` raises ValueError for the step 0.
unfoldable pub insert_rows : (ℕ → Bool) → ℕ → ℕ → List Row → Session → Result Exn (ℕ × ℤ) × Session
unfolding chunks insert_batches counted
insert_rows up run_id batch_size [] s = (ok (0, pos 0), s)
insert_rows up run_id zero (r ∷ rows) s = (err value_error, s)
insert_rows up run_id (suc size) (r ∷ rows) s =
    let res = insert_batches up 0 run_id s.work.audit (chunks (suc size) (r ∷ rows)) in
    (counted run_id (length (r ∷ rows)) res, record s { work = record s.work { audit = res.1 } })
