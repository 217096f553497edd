-- ===== src/ColumnTypes.antt =====
-- bluewave/schema.py: column types up to integer widths and the JSON alias. Letters are lowered and
-- digits read in ASCII.
use blue_waving.Base.{
  ◌+◌, Bool, true, false, ◌&&◌, ◌||◌, Option, none, some, List, [], ◌∷◌, ◌++◌, leb, ◌==◌,
  if◌then◌else◌, Text, codes, text_eq, strip,
}
use blue_waving.Auth.{starts_with}
use blue_waving.Datetime.{is_digit}

unfoldable pub lower : Text → Text
lower [] = []
lower (c ∷ t) = (if leb 65 c && leb c 90 then c + 32 else c) ∷ lower t

abbrev pub int_types_with_width : List Text
int_types_with_width =
    codes "tinyint"
    ∷ codes "smallint"
    ∷ codes "mediumint"
    ∷ codes "int"
    ∷ codes "integer"
    ∷ codes "bigint"
    ∷ []

-- What follows a prefix.
unfoldable pub after_prefix : Text → Text → Option Text
after_prefix [] t = some t
after_prefix (c ∷ s) [] = none
after_prefix (c ∷ s) (d ∷ t) = if c == d then after_prefix s t else none

-- What follows `\d+\)`, where `some_digit` says whether a digit was read.
unfoldable pub after_width : Bool → Text → Option Text
after_width some_digit [] = none
after_width some_digit (c ∷ t) = elim (is_digit c) [
  | true ↦ after_width true t
  | false ↦ if some_digit && (c == b')') then some t else none
]

unfoldable pub after_type : Text → Text → Option Text
unfolding after_prefix after_width
after_type type t = elim (after_prefix type t) [
  | none ↦ none
  | some [] ↦ none
  | some (c ∷ rest) ↦ if c == b'(' then after_width false rest else none
]

-- `_INT_WIDTH_RE.sub(r"\1", s)`
unfoldable pub strip_width : List Text → Text → Text
unfolding after_type
strip_width [] t = t
strip_width (type ∷ types) t = elim (after_type type t) [
  | none ↦ strip_width types t
  | some rest ↦ type ++ rest
]

unfoldable pub normalize_column_type : Text → Text
unfolding lower strip_width
normalize_column_type t =
    let s = strip (lower t) in
    if starts_with (codes "tinyint(1)") s then s else strip_width int_types_with_width s

unfoldable pub types_match : Text → Text → Bool
unfolding normalize_column_type
types_match expected actual =
    let actual_n = normalize_column_type actual in
    let expected_n = strip (lower expected) in
    if text_eq expected_n (codes "json")
    then text_eq actual_n (codes "json") || text_eq actual_n (codes "longtext")
    else text_eq actual_n expected_n
