-- ===== src/Dedup/Payload.antt =====
-- bluewave/dedup.py, dedup_hash: the payload against its parts.
use blue_waving.Base.{lacks, split_at_sep, ◌≡◌, Bool, true, Text}
use blue_waving.Datetime.{strftime_utc}
use blue_waving.Dedup.{dedup_sep, or_empty, HashInput, payload}

abbrev pub is_clean : Text → Bool
is_clean = lacks dedup_sep

pub record CleanParts (i : HashInput) : Type 0 where
  pub source : is_clean i.source ≡ true
  pub timestamp : is_clean (strftime_utc i.timestamp_utc) ≡ true
  pub operation : is_clean i.operation ≡ true
  pub instance_name : is_clean i.instance_name ≡ true
  pub user_id : is_clean (or_empty i.user_id) ≡ true
  pub user_name : is_clean (or_empty i.user_name) ≡ true

-- The parts of two inputs agree.
pub record SameParts (i j : HashInput) : Type 0 where
  pub source : i.source ≡ j.source
  pub timestamp : strftime_utc i.timestamp_utc ≡ strftime_utc j.timestamp_utc
  pub operation : i.operation ≡ j.operation
  pub instance_name : i.instance_name ≡ j.instance_name
  pub user_id : or_empty i.user_id ≡ or_empty j.user_id
  pub user_name : or_empty i.user_name ≡ or_empty j.user_name
  pub extra_data_str : or_empty i.extra_data_str ≡ or_empty j.extra_data_str

-- Two hash inputs whose parts before extra_data have no separator in them, and whose payloads are
-- equal, agree on every part.
pub payload_injective :
    (i j : HashInput) → CleanParts i → CleanParts j → payload i ≡ payload j → SameParts i j
unfolding payload
payload_injective i j a b e =
    let e1 = split_at_sep dedup_sep _ _ _ _ a.source b.source e in
    let e2 = split_at_sep dedup_sep _ _ _ _ a.timestamp b.timestamp e1.1 in
    let e3 = split_at_sep dedup_sep _ _ _ _ a.operation b.operation e2.1 in
    let e4 = split_at_sep dedup_sep _ _ _ _ a.instance_name b.instance_name e3.1 in
    let e5 = split_at_sep dedup_sep _ _ _ _ a.user_id b.user_id e4.1 in
    let e6 = split_at_sep dedup_sep _ _ _ _ a.user_name b.user_name e5.1 in
    record {
      source = e1.0;
      timestamp = e2.0;
      operation = e3.0;
      instance_name = e4.0;
      user_id = e5.0;
      user_name = e6.0;
      extra_data_str = e6.1;
    }
