-- ===== src/Row.antt =====
-- bluewave/transform.py, the class Row: one event, ready for the insert.
use blue_waving.Datetime.{Datetime}
use blue_waving.Base.{Option, Text}

pub record Row : Type 0 where
  -- in UTC
  pub timestamp : Datetime
  pub source : Text
  pub operation : Text
  pub instance_name : Text
  pub user_name : Option Text
  pub user_id : Option Text
  pub extra_data_str : Option Text
  pub dedup_hash : Text
