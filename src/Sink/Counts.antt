-- ===== src/Sink/Counts.antt =====
-- bluewave/sink.py: insert_rows as a whole, also when the server refuses a batch.
use blue_waving.Base.{
  ℕ, zero, suc, ◌+◌, ◌-◌, ◌≤◌, ◌<◌, ◌≡◌, refl, sym, ◌≢◌, Bool, true, false, List, [], ◌∷◌, arith,
  length, take, pos, sub_ℕ, ok,
}
use mathlib.Core.Path.{subst}
use blue_waving.Row.{Row}
use blue_waving.Runs.{AuditRow, Session}
use blue_waving.Sink.{chunks, insert_batch, insert_batches, count_run, counted, insert_rows}
use blue_waving.Sink.Laws.{
  flatten, flatten-chunks, insert_batches-eq-insert_batch, UniqueHashes, insert_batch-UniqueHashes,
  insert_batch_idem, count_insert_batch, insert_batch-append,
}

-- With a server that takes every batch and some rows, the batches of insert_rows leave the table
-- that one insert of all rows leaves, whatever the positive batch size, and commit nothing.
pub insert_rows-eq-insert_batch :
    (up : ℕ → Bool) (run_id size : ℕ) (rows : List Row) (s : Session)
    → ((i : ℕ) → up i ≡ true)
    → rows ≢ []
    → insert_rows up run_id (suc size) rows s ≡ (
      counted run_id (length rows) (true, insert_batch run_id s.work.audit rows),
      record s { work = record s.work { audit = insert_batch run_id s.work.audit rows } },
    )
unfolding insert_rows
insert_rows-eq-insert_batch up run_id size [] s all ne = absurd (ne refl)
insert_rows-eq-insert_batch up run_id size (r ∷ rows) s all ne = rw (
  insert_batches-eq-insert_batch up 0 run_id s.work.audit (chunks (suc size) (r ∷ rows)) all,
  flatten-chunks (suc size) (r ∷ rows) (omega arith),
)

sub_ℕ-grown :
    (c c0 l n k : ℕ)
    → c + l ≡ c0 + n
    → c0 ≡ 0
    → l ≤ n
    → n ≤ l + k
    → (c ≡ n - l) × (sub_ℕ k c ≡ pos (k - (n - l)))
unfolding sub_ℕ
sub_ℕ-grown c c0 l n k e z h g = (omega arith, ground arith)

-- With a server that takes every batch, for a run that has no rows yet and a table without
-- repeated hashes, insert_rows reports as inserted the number by which the table grows, as
-- duplicates the rest of its rows, and leaves no hash in the table twice.
pub insert_rows_exact :
    (up : ℕ → Bool) (run_id size : ℕ) (rows : List Row) (s : Session)
    → ((i : ℕ) → up i ≡ true)
    → rows ≢ []
    → count_run run_id s.work.audit ≡ 0
    → UniqueHashes s.work.audit
    → let grown = length (insert_batch run_id s.work.audit rows) - length s.work.audit in
      ((insert_rows up run_id (suc size) rows s).0 ≡ ok (grown, pos (length rows - grown)))
      × (grown ≤ length rows)
      × UniqueHashes (insert_rows up run_id (suc size) rows s).1.work.audit
unfolding counted
insert_rows_exact up run_id size rows s all ne fresh u =
    let c = count_insert_batch run_id s.work.audit rows in
    let e = sub_ℕ-grown _ _ _ _ (length rows) c.0 fresh c.1 c.2 in
    rw (insert_rows-eq-insert_batch up run_id size rows s all ne)
      (cc (e.0, e.1), omega (arith, c.2), insert_batch-UniqueHashes run_id s.work.audit rows u)

-- With a server that takes every batch, inserting the same rows again in a run without rows of its
-- own inserts nothing, reports every row as a duplicate and leaves the session as it was.
pub insert_rows_again :
    (up : ℕ → Bool) (first second size : ℕ) (rows : List Row) (audit : List AuditRow) (s : Session)
    → ((i : ℕ) → up i ≡ true)
    → rows ≢ []
    → s.work.audit ≡ insert_batch first audit rows
    → count_run second s.work.audit ≡ 0
    → insert_rows up second (suc size) rows s ≡ (ok (0, pos (length rows)), s)
unfolding counted sub_ℕ
insert_rows_again up first second size rows audit s all ne old fresh =
    let same : insert_batch second s.work.audit rows ≡ s.work.audit =
      subst (λ a. insert_batch second a rows ≡ a) (sym old)
        (insert_batch_idem first second audit rows) in
    rw (insert_rows-eq-insert_batch up second size rows s all ne, same, fresh) (ground arith)

-- The first `k` batches of a list of batches.
abbrev pub first_batches : ℕ → List (List Row) → List Row
first_batches k bs = flatten (take k bs)

-- Where the server takes the first k batches and refuses the next, which is there, exactly the
-- rows of those k batches are inserted in the open transaction.
pub insert_batches_refused :
    (up : ℕ → Bool) (k i run_id : ℕ) (audit : List AuditRow) (bs : List (List Row))
    → ((j : ℕ) → j < i + k → up j ≡ true)
    → up (i + k) ≡ false
    → k < length bs
    → insert_batches up i run_id audit bs ≡ (false, insert_batch run_id audit (first_batches k bs))
unfolding insert_batches
insert_batches_refused up k i run_id audit [] before at h = elim h [ ]
insert_batches_refused up zero i run_id audit (b ∷ bs) before at h =
    let e : i + 0 ≡ i = omega arith in
    rw (subst (λ (n : ℕ). up n ≡ false) e at) (unfold insert_batch in refl)
insert_batches_refused up (suc k) i run_id audit (b ∷ bs) before at h =
    let e : i + suc k ≡ i + 1 + k = omega arith in
    rw (before i (omega arith), insert_batch-append run_id audit b (flatten (take k bs)))
      (insert_batches_refused up k (i + 1) run_id (insert_batch run_id audit b) bs
        (λ j l. before j (omega arith)) (subst (λ (n : ℕ). up n ≡ false) e at) (omega arith))
