-- ===== src/DryRun.antt =====
-- bluewave/dryrun.py: a run without the insert, and what it foretells. The browser is that of run_job.
pub mod Laws
pub mod Foretold
pub mod Handler
use blue_waving.Base.{
  ℕ, ◌+◌, ◌-◌, String, Bool, Option, none, some, List, [], ◌∷◌, ◌++◌, map, leb, if◌then◌else◌,
  length, take, any, count_if, Text, text_eq, Result, ok, err, ◌>>=◌,
}
use blue_waving.Exceptions.{Exn}
use blue_waving.Config.{Config}
use blue_waving.Row.{Row}
use blue_waving.Datetime.{Datetime}
use blue_waving.Dedup.{source_bluewave}
use blue_waving.Transform.{CsvFile, unless_raised, Zone, RawRow, transform}
use blue_waving.Runs.{AuditRow}
use blue_waving.Sink.{chunks}

abbrev pub preview_limit : ℕ
preview_limit = 10

abbrev pub existing_hash_chunk : ℕ
existing_hash_chunk = 500

-- Where the error of a failed dry run comes from.
pub data DryRunError : Type 0 where
  not_configured : DryRunError
  scrape_failed transform_failed : Exn → DryRunError

-- `_row_to_preview`; the timestamp is not printed here, and the mark behind the hash is left out.
pub record RowPreview : Type 0 where
  pub timestamp : Datetime
  pub source : Text
  pub operation : Text
  pub instance_name : Text
  pub user_name : Option Text
  pub user_id : Option Text
  pub extra_data : Option Text
  pub hash_prefix : Text

pub record DryRunResult : Type 0 where
  pub status : String
  pub error : Option DryRunError
  pub csv_rows_total : ℕ
  pub csv_preview : List RawRow
  pub transformed_rows_total : ℕ
  pub transformed_preview : List RowPreview
  pub would_insert : ℕ
  pub would_skip_duplicate : ℕ

-- The defaults of the class.
abbrev pub no_result : DryRunResult
no_result = record {
  status = "failed";
  error = none;
  csv_rows_total = 0;
  csv_preview = [];
  transformed_rows_total = 0;
  transformed_preview = [];
  would_insert = 0;
  would_skip_duplicate = 0;
}

unfoldable pub row_to_preview : Row → RowPreview
row_to_preview r = record {
  timestamp = r.timestamp;
  source = r.source;
  operation = r.operation;
  instance_name = r.instance_name;
  user_name = r.user_name;
  user_id = r.user_id;
  extra_data = r.extra_data_str;
  hash_prefix = take 16 r.dedup_hash;
}

-- `next(reader, None)`
unfoldable pub without_header : List (List Text) → List (List Text)
without_header [] = []
without_header (header ∷ records) = records

-- All of the file is read.
unfoldable pub count_csv_rows : CsvFile → Result Exn ℕ
unfolding without_header unless_raised
count_csv_rows csv = do
  u ← unless_raised csv.refused
  v ← unless_raised csv.broken
  ok (length (without_header csv.records))

-- The first eight fields of a record, if it has them.
unfoldable pub preview_of : List Text → List RawRow
preview_of (a ∷ b ∷ c ∷ d ∷ e ∷ f ∷ g ∷ h ∷ rest) =
    record {
      date_time = a;
      door_name = b;
      description = c;
      person = d;
      employee_id = e;
      card_number = f;
      facility_code = g;
      pin = h;
    }
    ∷ []
preview_of _ = []

unfoldable pub previews : List (List Text) → List RawRow
unfolding preview_of
previews [] = []
previews (record_ ∷ records) = preview_of record_ ++ previews records

-- `_csv_preview` reads one record behind the limit, and to the end where there is none.
unfoldable pub csv_preview_of : CsvFile → ℕ → Result Exn (List RawRow)
unfolding previews without_header unless_raised
csv_preview_of csv limit =
    let records = without_header csv.records in
    do
      u ← unless_raised csv.refused
      v ← if leb (length records) limit then unless_raised csv.broken else ok tt
      ok (previews (take limit records))

abbrev pub in_texts : Text → List Text → Bool
in_texts h = any (λ t. text_eq t h)

-- `SELECT dedup_hash … WHERE dedup_hash IN (…)`
unfoldable pub hashes_found : List AuditRow → List Text → List Text
hashes_found [] hashes = []
hashes_found (a ∷ audit) hashes =
    let rest = hashes_found audit hashes in
    if in_texts a.row.dedup_hash hashes then a.row.dedup_hash ∷ rest else rest

abbrev pub hashes_of : List Row → List Text
hashes_of [] = []
hashes_of (r ∷ rows) = r.dedup_hash ∷ hashes_of rows

unfoldable pub found_in_batches : List AuditRow → List (List Row) → List Text
unfolding hashes_found
found_in_batches audit [] = []
found_in_batches audit (b ∷ batches) =
    hashes_found audit (hashes_of b) ++ found_in_batches audit batches

-- `_existing_hashes`, where MySQL is reached
unfoldable pub existing_hashes : List AuditRow → List Row → List Text
unfolding found_in_batches
existing_hashes audit rows = found_in_batches audit (chunks existing_hash_chunk rows)

-- What the dry run meets: `audit` is none where the lookup raises.
pub record DryWorld : Type 0 where
  -- what mkdtemp raises for the download directory, if it does
  pub mkdtemp : Option Exn
  pub browse : Config → ℕ → Result Exn (Option CsvFile)
  pub sha256_hex : Text → Text
  pub zone_of : Text → Option Zone
  pub audit : Option (List AuditRow)

unfoldable pub existing_or_none : Option (List AuditRow) → List Row → List Text
unfolding existing_hashes
existing_or_none none rows = []
existing_or_none (some audit) rows = existing_hashes audit rows

unfoldable pub foretell : Option (List AuditRow) → List Row → ℕ × ℕ
unfolding existing_or_none
foretell audit rows =
    let would_skip = count_if (λ r. in_texts r.dedup_hash (existing_or_none audit rows)) rows in
    (length rows - would_skip, would_skip)

-- What is answered for the rows of transform or its exception.
unfoldable pub with_rows : DryWorld → ℕ → List RawRow → Result Exn (List Row) → DryRunResult
unfolding foretell row_to_preview
with_rows w csv_total csv_prev (err e) = record no_result {
  error = some (transform_failed e);
  csv_rows_total = csv_total;
  csv_preview = csv_prev;
}
with_rows w csv_total csv_prev (ok rows) = record no_result {
  status = "ok";
  csv_rows_total = csv_total;
  csv_preview = csv_prev;
  transformed_rows_total = length rows;
  transformed_preview = map row_to_preview (take preview_limit rows);
  would_insert = (foretell w.audit rows).0;
  would_skip_duplicate = (foretell w.audit rows).1;
}

-- What the count and the preview raise leaves dry_run.
unfoldable pub after_scrape :
    DryWorld → Config → Result Exn (Option CsvFile) → Result Exn DryRunResult
unfolding with_rows count_csv_rows csv_preview_of
after_scrape w cfg (err e) = ok (record no_result { error = some (scrape_failed e) })
after_scrape w cfg (ok none) = ok (record no_result { status = "empty" })
after_scrape w cfg (ok (some csv)) = do
  csv_total ← count_csv_rows csv
  csv_prev ← csv_preview_of csv preview_limit
  ok (
      with_rows w csv_total csv_prev
        (transform w.sha256_hex w.zone_of source_bluewave cfg.operator_timezone csv))

unfoldable pub dry_run : DryWorld → Option Config → ℕ → Result Exn DryRunResult
unfolding after_scrape unless_raised
dry_run w none report_date = ok (record no_result { error = some not_configured })
dry_run w (some cfg) report_date = do
  u ← unless_raised w.mkdtemp
  after_scrape w cfg (w.browse cfg report_date)
