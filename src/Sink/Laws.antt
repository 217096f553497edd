-- ===== src/Sink/Laws.antt =====
-- bluewave/sink.py: the chunks, the insert of a batch, and the counts.
use blue_waving.Base.{
  ℕ, zero, suc, ◌+◌, ◌≤◌, ◌<◌, ◌≡◌, refl, inl, inr, Bool, true, false, ◌||◌, List, [], ◌∷◌, ◌++◌,
  arith, ◌==◌, ==_refl, Bool-cases, length, drop, any, every, length-append, take-append-drop,
  length-drop, any-append, count_if-append, Text, text_eq, text_eq_sound, text_eq_refl,
}
use mathlib.Core.Path.{subst}
use blue_waving.Row.{Row}
use blue_waving.Runs.{AuditRow}
use blue_waving.Sink.{
  chunks_from, chunks, has_hash, insert_row, insert_batch, insert_batches, count_run,
}

abbrev pub flatten : List (List Row) → List Row
flatten [] = []
flatten (b ∷ bs) = b ++ flatten bs

flatten-chunks_from :
    (fuel size : ℕ) (rows : List Row)
    → 0 < size
    → length rows ≤ fuel
    → flatten (chunks_from fuel size rows) ≡ rows
unfolding chunks_from
flatten-chunks_from zero size [] p h = refl
flatten-chunks_from zero size (r ∷ rows) p h = elim h [ ]
flatten-chunks_from (suc fuel) size [] p h = refl
flatten-chunks_from (suc fuel) size (r ∷ rows) p h =
    rw
      (flatten-chunks_from fuel size (drop size (r ∷ rows)) p
        (omega (arith, length-drop size (r ∷ rows))))
      (take-append-drop size (r ∷ rows))

-- For a positive size the chunks put together are the rows, in order, none left out and none
-- twice.
pub flatten-chunks : (size : ℕ) (rows : List Row) → 0 < size → flatten (chunks size rows) ≡ rows
unfolding chunks
flatten-chunks size rows p = flatten-chunks_from (length rows) size rows p (omega arith)

pub insert_batch-append :
    (run_id : ℕ) (audit : List AuditRow) (xs ys : List Row)
    → insert_batch run_id audit (xs ++ ys) ≡ insert_batch run_id (insert_batch run_id audit xs) ys
unfolding insert_batch
insert_batch-append run_id audit [] ys = refl
insert_batch-append run_id audit (x ∷ xs) ys =
    insert_batch-append run_id (insert_row run_id audit x) xs ys

-- With a server that takes every batch, the batches do what one insert of all rows does.
pub insert_batches-eq-insert_batch :
    (up : ℕ → Bool) (i run_id : ℕ) (audit : List AuditRow) (bs : List (List Row))
    → ((j : ℕ) → up j ≡ true)
    → insert_batches up i run_id audit bs ≡ (true, insert_batch run_id audit (flatten bs))
unfolding insert_batches
insert_batches-eq-insert_batch up i run_id audit [] all = unfold insert_batch in refl
insert_batches-eq-insert_batch up i run_id audit (b ∷ bs) all =
    rw (all i, insert_batch-append run_id audit b (flatten bs))
      (insert_batches-eq-insert_batch up (i + 1) run_id (insert_batch run_id audit b) bs all)

-- No hash is in the table twice.
abbrev pub UniqueHashes : List AuditRow → Type 0
UniqueHashes [] = Unit
UniqueHashes (a ∷ audit) = (has_hash a.row.dedup_hash audit ≡ false) × UniqueHashes audit

pub has_hash-append :
    (h : Text) (xs ys : List AuditRow) → has_hash h (xs ++ ys) ≡ (has_hash h xs || has_hash h ys)
unfolding has_hash
has_hash-append h xs ys = any-append (λ a. text_eq a.row.dedup_hash h) xs ys

pub text_eq_sym : (s t : Text) → text_eq s t ≡ text_eq t s
text_eq_sym [] [] = refl
text_eq_sym [] (d ∷ t) = refl
text_eq_sym (c ∷ s) [] = refl
text_eq_sym (c ∷ s) (d ∷ t) = ground (arith, text_eq_sym s t)

UniqueHashes-snoc :
    (audit : List AuditRow) (a : AuditRow)
    → UniqueHashes audit
    → has_hash a.row.dedup_hash audit ≡ false
    → UniqueHashes (audit ++ a ∷ [])
unfolding has_hash
UniqueHashes-snoc [] a u h = (refl, tt)
UniqueHashes-snoc (b ∷ audit) a u h = (
  ground (
    arith,
    has_hash-append b.row.dedup_hash audit (a ∷ []),
    text_eq_sym a.row.dedup_hash b.row.dedup_hash,
  ),
  UniqueHashes-snoc audit a u.1 (ground arith),
)

insert_row-UniqueHashes :
    (run_id : ℕ) (audit : List AuditRow) (r : Row)
    → UniqueHashes audit
    → UniqueHashes (insert_row run_id audit r)
unfolding insert_row
insert_row-UniqueHashes run_id audit r u = elim (Bool-cases (has_hash r.dedup_hash audit)) [
  | inl old ↦ rw old u
  | inr new ↦ rw new (UniqueHashes-snoc audit _ u new)
]

pub insert_batch-UniqueHashes :
    (run_id : ℕ) (audit : List AuditRow) (rows : List Row)
    → UniqueHashes audit
    → UniqueHashes (insert_batch run_id audit rows)
unfolding insert_batch
insert_batch-UniqueHashes run_id audit [] u = u
insert_batch-UniqueHashes run_id audit (r ∷ rows) u =
    insert_batch-UniqueHashes run_id (insert_row run_id audit r) rows
      (insert_row-UniqueHashes run_id audit r u)

has_hash-of_text_eq :
    (s h : Text) (audit : List AuditRow)
    → text_eq s h ≡ true
    → has_hash s audit ≡ true
    → has_hash h audit ≡ true
has_hash-of_text_eq s h audit e k = subst (λ t. has_hash t audit ≡ true) (text_eq_sound s h e) k

has_hash-insert_row :
    (run_id : ℕ) (audit : List AuditRow) (r : Row) (h : Text)
    → has_hash h (insert_row run_id audit r) ≡ (has_hash h audit || text_eq r.dedup_hash h)
unfolding insert_row
has_hash-insert_row run_id audit r h = ground (
  arith,
  has_hash-append h audit (record { row = r; ingest_run_id = run_id } ∷ []),
  has_hash-of_text_eq r.dedup_hash h audit,
)

-- After the insert a hash is in the table exactly if it was there or one of the rows has it.
pub has_hash-insert_batch :
    (run_id : ℕ) (audit : List AuditRow) (rows : List Row) (h : Text)
    → has_hash h (insert_batch run_id audit rows)
      ≡ (has_hash h audit || any (λ r. text_eq r.dedup_hash h) rows)
unfolding insert_batch
has_hash-insert_batch run_id audit [] h = ground arith
has_hash-insert_batch run_id audit (r ∷ rows) h = ground (
  arith,
  has_hash-insert_batch run_id (insert_row run_id audit r) rows h,
  has_hash-insert_row run_id audit r h,
)

insert_batch-known :
    (run_id : ℕ) (audit : List AuditRow) (rows : List Row)
    → every (λ r. has_hash r.dedup_hash audit) rows ≡ true
    → insert_batch run_id audit rows ≡ audit
unfolding insert_batch insert_row
insert_batch-known run_id audit [] k = refl
insert_batch-known run_id audit (r ∷ rows) k = ground (arith, insert_batch-known run_id audit rows)

known-insert_batch :
    (run_id : ℕ) (audit : List AuditRow) (rows : List Row)
    → every (λ r. has_hash r.dedup_hash (insert_batch run_id audit rows)) rows ≡ true
unfolding insert_batch
known-insert_batch run_id audit [] = refl
known-insert_batch run_id audit (r ∷ rows) = ground (
  arith,
  known-insert_batch run_id (insert_row run_id audit r) rows,
  has_hash-insert_batch run_id (insert_row run_id audit r) rows r.dedup_hash,
  has_hash-insert_row run_id audit r r.dedup_hash,
  text_eq_refl r.dedup_hash,
)

-- Inserting rows again, by whatever run, changes nothing.
pub insert_batch_idem :
    (first second : ℕ) (audit : List AuditRow) (rows : List Row)
    → insert_batch second (insert_batch first audit rows) rows ≡ insert_batch first audit rows
insert_batch_idem first second audit rows =
    insert_batch-known second (insert_batch first audit rows) rows
      (known-insert_batch first audit rows)

count_insert_row :
    (run_id : ℕ) (audit : List AuditRow) (r : Row)
    → (count_run run_id (insert_row run_id audit r) + length audit
        ≡ count_run run_id audit + length (insert_row run_id audit r))
      × (length audit ≤ length (insert_row run_id audit r))
      × (length (insert_row run_id audit r) ≤ length audit + 1)
unfolding insert_row count_run
count_insert_row run_id audit r = elim (Bool-cases (has_hash r.dedup_hash audit)) [
  | inl old ↦ rw old (refl, omega arith, omega arith)
  | inr new ↦
      let a : AuditRow = record { row = r; ingest_run_id = run_id } in
      let c = count_if-append (λ (x : AuditRow). x.ingest_run_id == run_id) audit (a ∷ []) in
      let l = length-append audit (a ∷ []) in
      rw (new, c, l) (ground (arith, ==_refl run_id), omega arith, omega arith)
]

-- The rows that a run tags are as many as the table grows by.
pub count_insert_batch :
    (run_id : ℕ) (audit : List AuditRow) (rows : List Row)
    → (count_run run_id (insert_batch run_id audit rows) + length audit
        ≡ count_run run_id audit + length (insert_batch run_id audit rows))
      × (length audit ≤ length (insert_batch run_id audit rows))
      × (length (insert_batch run_id audit rows) ≤ length audit + length rows)
unfolding insert_batch
count_insert_batch run_id audit [] = (refl, omega arith, omega arith)
count_insert_batch run_id audit (r ∷ rows) = omega (
  arith,
  count_insert_row run_id audit r,
  count_insert_batch run_id (insert_row run_id audit r) rows,
)
