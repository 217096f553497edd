-- ===== src/DryRun/Laws.antt =====
-- bluewave/dryrun.py: the lookup and the counts, against the insert.
use blue_waving.Base.{
  ℕ, ◌+◌, ◌≡◌, refl, ap, ◌∙◌, inl, inr, true, false, ◌&&◌, some, List, [], ◌∷◌, ◌++◌, arith,
  Bool-cases, length, count_if, length-append, any-append, Text, text_eq, text_eq_sound,
  text_eq_refl,
}
use blue_waving.Row.{Row}
use mathlib.Core.List.{append_assoc}
use mathlib.Core.Path.{subst}
use blue_waving.Runs.{AuditRow}
use blue_waving.Sink.{insert_row, insert_batch, chunks, has_hash}
use blue_waving.Sink.Laws.{
  text_eq_sym, has_hash-append, count_insert_batch, flatten, flatten-chunks,
}
use blue_waving.DryRun.{
  foretell, existing_or_none, in_texts, hashes_of, hashes_found, found_in_batches, existing_hashes,
  existing_hash_chunk,
}

in_texts-hashes_found :
    (h : Text) (audit : List AuditRow) (hashes : List Text)
    → in_texts h (hashes_found audit hashes) ≡ (has_hash h audit && in_texts h hashes)
unfolding hashes_found has_hash
in_texts-hashes_found h [] hashes = refl
in_texts-hashes_found h (a ∷ audit) hashes = elim (Bool-cases (text_eq a.row.dedup_hash h)) [
  | inl same ↦
      let e = text_eq_sound a.row.dedup_hash h same in
      rw (e, text_eq_refl h) (ground (arith, in_texts-hashes_found h audit hashes, text_eq_refl h))
  | inr differ ↦ ground (arith, differ, in_texts-hashes_found h audit hashes)
]

hashes_of-append : (xs ys : List Row) → hashes_of (xs ++ ys) ≡ hashes_of xs ++ hashes_of ys
hashes_of-append [] ys = refl
hashes_of-append (x ∷ xs) ys = ap (λ t. x.dedup_hash ∷ t) (hashes_of-append xs ys)

in_texts-found_in_batches :
    (h : Text) (audit : List AuditRow) (bs : List (List Row))
    → in_texts h (found_in_batches audit bs)
      ≡ (has_hash h audit && in_texts h (hashes_of (flatten bs)))
unfolding found_in_batches
in_texts-found_in_batches h audit [] = ground arith
in_texts-found_in_batches h audit (b ∷ bs) = rw (hashes_of-append b (flatten bs)) (
    ground (
      arith,
      any-append (λ t. text_eq t h) (hashes_found audit (hashes_of b)) (found_in_batches audit bs),
      any-append (λ t. text_eq t h) (hashes_of b) (hashes_of (flatten bs)),
      in_texts-hashes_found h audit (hashes_of b),
      in_texts-found_in_batches h audit bs,
    ))

-- The lookup in batches finds a hash exactly if the table has it and a row asks for it.
pub in_texts-existing_hashes :
    (h : Text) (audit : List AuditRow) (rows : List Row)
    → in_texts h (existing_hashes audit rows) ≡ (has_hash h audit && in_texts h (hashes_of rows))
unfolding existing_hashes
in_texts-existing_hashes h audit rows =
    in_texts-found_in_batches h audit (chunks existing_hash_chunk rows)
    ∙ ap (λ t. has_hash h audit && in_texts h (hashes_of t))
        (flatten-chunks existing_hash_chunk rows (omega arith))

-- No two of the rows have one hash.
abbrev pub DistinctHashes : List Row → Type 0
DistinctHashes [] = Unit
DistinctHashes (r ∷ rows) = (in_texts r.dedup_hash (hashes_of rows) ≡ false) × DistinctHashes rows

asked_for :
    (pre rows : List Row) (r : Row) → in_texts r.dedup_hash (hashes_of (pre ++ r ∷ rows)) ≡ true
asked_for [] rows r = rw (text_eq_refl r.dedup_hash)
asked_for (x ∷ pre) rows r = ground (arith, asked_for pre rows r)

-- How many of the rows the table has already.
abbrev pub count_known : List AuditRow → List Row → ℕ
count_known audit = count_if (λ r. has_hash r.dedup_hash audit)

count_existing :
    (audit : List AuditRow) (pre rows : List Row)
    → count_if (λ r. in_texts r.dedup_hash (existing_hashes audit (pre ++ rows))) rows
      ≡ count_known audit rows
count_existing audit pre [] = refl
count_existing audit pre (r ∷ rows) =
    let ih = count_existing audit (pre ++ r ∷ []) rows in
    let e = append_assoc pre (r ∷ []) rows in
    let ih' : count_if (λ t. in_texts t.dedup_hash (existing_hashes audit (pre ++ r ∷ rows))) rows
        ≡ count_known audit rows =
      subst
        (λ (all : List Row).
          count_if (λ t. in_texts t.dedup_hash (existing_hashes audit all)) rows
          ≡ count_known audit rows)
        e ih in
    rw (in_texts-existing_hashes r.dedup_hash audit (pre ++ r ∷ rows), asked_for pre rows r, ih')
      (ground arith)

count_known-snoc :
    (audit : List AuditRow) (a : AuditRow) (rows : List Row)
    → in_texts a.row.dedup_hash (hashes_of rows) ≡ false
    → count_known (audit ++ a ∷ []) rows ≡ count_known audit rows
count_known-snoc audit a [] h = refl
count_known-snoc audit a (r ∷ rows) h =
    let apart : text_eq a.row.dedup_hash r.dedup_hash ≡ false =
      text_eq_sym a.row.dedup_hash r.dedup_hash ∙ ground (arith, h) in
    let e : has_hash r.dedup_hash (audit ++ a ∷ []) ≡ has_hash r.dedup_hash audit =
      has_hash-append r.dedup_hash audit (a ∷ []) ∙ unfold has_hash in ground (arith, apart) in
    rw (e, count_known-snoc audit a rows (ground (arith, h)))

insert_batch-grows :
    (run_id : ℕ) (audit : List AuditRow) (rows : List Row)
    → DistinctHashes rows
    → length (insert_batch run_id audit rows) + count_known audit rows ≡ length audit + length rows
unfolding insert_batch insert_row
insert_batch-grows run_id audit [] d = omega arith
insert_batch-grows run_id audit (r ∷ rows) d = elim (Bool-cases (has_hash r.dedup_hash audit)) [
  | inl known ↦ rw known (omega (arith, insert_batch-grows run_id audit rows d.1))
  | inr fresh ↦ rw fresh (
      let a : AuditRow = record { row = r; ingest_run_id = run_id } in
      omega (
        arith,
        insert_batch-grows run_id (audit ++ a ∷ []) rows d.1,
        count_known-snoc audit a rows d.0,
        length-append audit (a ∷ []),
      ))
]

-- For rows of which no two have one hash, and with the lookup answered: the rows that the dry run
-- says would be inserted are those by which an insert of all rows makes the table grow, and the
-- rest are said to be duplicates.
pub foretell-insert_batch :
    (run_id : ℕ) (audit : List AuditRow) (rows : List Row)
    → DistinctHashes rows
    → (length (insert_batch run_id audit rows) ≡ length audit + (foretell (some audit) rows).0)
      × ((foretell (some audit) rows).0 + (foretell (some audit) rows).1 ≡ length rows)
unfolding foretell existing_or_none
foretell-insert_batch run_id audit rows d = rw (count_existing audit [] rows) (
  omega (arith, insert_batch-grows run_id audit rows d, count_insert_batch run_id audit rows),
  omega (arith, insert_batch-grows run_id audit rows d, count_insert_batch run_id audit rows),
)
