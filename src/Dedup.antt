-- ===== src/Dedup.antt =====
-- bluewave/dedup.py: the canonical extra_data JSON and the payload of the dedup hash. SHA-256 with
-- `hexdigest` is a parameter.
pub mod Json
pub mod Payload
use blue_waving.Base.{
  ℕ, ◌+◌, ◌/◌, ◌%◌, Option, none, some, List, [], ◌∷◌, ◌++◌, ltb, ◌==◌, if◌then◌else◌, Text, codes,
  is_empty, strip, Result, ok, err,
}
use blue_waving.Exceptions.{Exn, value_error}
use blue_waving.Datetime.{Datetime, strftime_utc}

abbrev pub dedup_sep : ℕ
dedup_sep = b'|'

abbrev pub source_bluewave : Text
source_bluewave = codes "Bluewave"

-- A hexadecimal digit in lower case.
abbrev pub hex_digit : ℕ → ℕ
hex_digit n = if ltb n 10 then 48 + n else 87 + n

-- `json.dumps` with `ensure_ascii=False`: what it writes for one character of a string.
unfoldable pub escape_char : ℕ → Text
escape_char c =
    if c == 34
    then 92 ∷ 34 ∷ []
    else if c == 92
    then 92 ∷ 92 ∷ []
    else if c == 10
    then 92 ∷ b'n' ∷ []
    else if c == 13
    then 92 ∷ b'r' ∷ []
    else if c == 9
    then 92 ∷ b't' ∷ []
    else if c == 12
    then 92 ∷ b'f' ∷ []
    else if c == 8
    then 92 ∷ b'b' ∷ []
    else if ltb c 32
    then 92 ∷ b'u' ∷ 48 ∷ 48 ∷ hex_digit (c / 16) ∷ hex_digit (c % 16) ∷ []
    else c ∷ []

unfoldable pub escape : Text → Text
escape [] = []
escape (c ∷ s) = escape_char c ++ escape s

unfoldable pub json_string : Text → Text
json_string s = 34 ∷ escape s ++ 34 ∷ []

-- `value is not None and value.strip()`: the value that goes into the payload.
unfoldable pub kept : Option Text → Option Text
kept none = none
kept (some v) = let s = strip v in if is_empty s then none else some s

-- `json.dumps(payload, sort_keys=True, separators=(",", ":"))`
unfoldable pub dump_payload : Option Text → Option Text → Option Text
dump_payload none none = none
dump_payload (some card) none = some (codes "{\"card_number\":" ++ (json_string card ++ codes "}"))
dump_payload none (some facility) =
    some (codes "{\"facility_code\":" ++ (json_string facility ++ codes "}"))
dump_payload (some card) (some facility) = some (
    codes "{\"card_number\":"
    ++ (json_string card ++ (codes ",\"facility_code\":" ++ (json_string facility ++ codes "}"))))

unfoldable pub canonical_extra_data : Option Text → Option Text → Option Text
unfolding kept dump_payload
canonical_extra_data card_number facility_code =
    dump_payload (kept card_number) (kept facility_code)

-- A datetime as dedup.py meets it: without a zone, in UTC, or in another zone, with what
-- `astimezone(timezone.utc)` gives for it.
pub data Stamp : Type 0 where
  naive utc other_zone : Datetime → Stamp

unfoldable pub canonical_timestamp_utc : Stamp → Result Exn Text
canonical_timestamp_utc (naive t) = err value_error
canonical_timestamp_utc (utc t) = ok (strftime_utc t)
canonical_timestamp_utc (other_zone as_utc) = ok (strftime_utc as_utc)

-- `value or ""`
unfoldable pub or_empty : Option Text → Text
or_empty none = []
or_empty (some s) = s

-- `DEDUP_SEP.join(parts)`
unfoldable pub join : List Text → Text
join [] = []
join (p ∷ []) = p
join (p ∷ q ∷ ps) = p ++ dedup_sep ∷ join (q ∷ ps)

-- The seven arguments of dedup_hash.
pub record HashInput : Type 0 where
  pub source : Text
  pub timestamp_utc : Datetime
  pub operation : Text
  pub instance_name : Text
  pub user_id : Option Text
  pub user_name : Option Text
  pub extra_data_str : Option Text

unfoldable pub parts : HashInput → Text → List Text
unfolding or_empty
parts i ts =
    i.source
    ∷ ts
    ∷ i.operation
    ∷ i.instance_name
    ∷ or_empty i.user_id
    ∷ or_empty i.user_name
    ∷ or_empty i.extra_data_str
    ∷ []

-- For a timestamp in UTC, as transform.py passes it.
unfoldable pub payload : HashInput → Text
unfolding join parts
payload i = join (parts i (strftime_utc i.timestamp_utc))

unfoldable pub dedup_hash : (Text → Text) → HashInput → Text
unfolding payload
dedup_hash sha256_hex i = sha256_hex (payload i)
