-- ===== src/Runs/History.antt =====
-- bluewave/runs.py: find_ingested_dates and reap_stuck_runs.
use blue_waving.Base.{
  ℕ, String, ◌≡◌, refl, inl, inr, Bool, true, false, ◌&&◌, List, [], ◌∷◌, map, arith, leb, ◌==◌,
  str_eq, eq_iff, Bool-cases, any, member,
}
use blue_waving.Runs.{RunRow, is_stuck, reap_row, is_ingested, find_ingested_dates}

-- A run of the source and date that counts as ingested.
abbrev pub has_ingested : String → ℕ → RunRow → Bool
has_ingested source d r = str_eq r.source source && (is_ingested r && (r.report_date == d))

-- find_ingested_dates reports a date exactly if it is not before `since` and a run of the source
-- for it has status `ok` or `skipped`.
pub member-find_ingested_dates :
    (source : String) (since d : ℕ) (rs : List RunRow)
    → member d (find_ingested_dates source since rs)
      ≡ (leb since d && any (has_ingested source d) rs)
unfolding find_ingested_dates
member-find_ingested_dates source since d [] = ground arith
member-find_ingested_dates source since d (r ∷ rs) =
    ground (arith, member-find_ingested_dates source since d rs)

reap_row_stuck :
    (now : ℕ) (source : String) (r : RunRow) → is_stuck source r ≡ true → is_ingested r ≡ false
unfolding is_stuck is_ingested
reap_row_stuck now source r h =
    let e : r.status ≡ "running" = (eq_iff r.status "running").0 (ground (arith, h)) in rw e

-- What find_ingested_dates reads of a row.
counts_since : String → ℕ → RunRow → Bool
unfolding is_ingested
counts_since source since r = str_eq r.source source && (is_ingested r && leb since r.report_date)

reap_row-counts :
    (now : ℕ) (source src : String) (since : ℕ) (r : RunRow)
    → (counts_since src since (reap_row now source r) ≡ counts_since src since r)
      × ((reap_row now source r).report_date ≡ r.report_date)
unfolding reap_row counts_since
reap_row-counts now source src since r = elim (Bool-cases (is_stuck source r)) [
  | inl h ↦ rw h ((ground (arith, reap_row_stuck now source r h), refl))
  | inr h ↦ rw h ((refl, refl))
]

-- Reaping the stuck runs of a source does not change which dates count as ingested.
pub find_ingested_dates-reap :
    (now : ℕ) (source src : String) (since : ℕ) (rs : List RunRow)
    → find_ingested_dates src since (map (reap_row now source) rs)
      ≡ find_ingested_dates src since rs
unfolding find_ingested_dates counts_since
find_ingested_dates-reap now source src since [] = refl
find_ingested_dates-reap now source src since (r ∷ rs) =
    let e = reap_row-counts now source src since r in
    let ih = find_ingested_dates-reap now source src since rs in cc (e.0, e.1, ih)
