-- ===== src/Validate/Records.antt =====
-- The readings of a record's fields in core/validate/automatic.py: anchors, risk, review flags and
-- categories. `none` is the TypeError of a test `in` a set with an unhashable value.
use veri_doc.Prelude.{
  ℕ, ◌-◌, ◌^◌, String, Bool, true, false, ◌&&◌, ◌||◌, not, List, [], ◌∷◌, Option, none, some, ◌==◌,
  ltb, if◌then◌else◌,
}
use veri_doc.Prelude.Int.{pos, negsuc, pos_part, neg_part, ltb_ℤ}
use veri_doc.Prelude.Lists.{contains}
use veri_doc.Py.Float.{Float, fin, of_int, float_lt, is_finite}
use veri_doc.Py.Value.{
  Value, Items, Fields, null, bool, int, float, str, list, tuple, dict, nil, cons, end, field, has,
  get, py_eq,
}
use veri_doc.Py.Text.{is_blank}
use veri_doc.Validate.Categories.{normalized_category, category_from_value_type, is_review_required}

-- `_same_non_empty_string`
unfoldable pub same_non_empty_string : Value → Value → Bool
same_non_empty_string (str expected) (str actual) = not (is_blank expected) && expected == actual
same_non_empty_string _ _ = false

-- `_number_expected`
unfoldable pub number_expected : Value → Bool
number_expected (int _) = true
number_expected (float _) = true
number_expected _ = false

-- float(n) overflows from the integer halfway between the largest double and 2^1024.
abbrev overflow : ℕ
overflow = 2 ^ 1024 - 2 ^ 970

-- `_is_supported_finite_number`, as the number that it accepts
unfoldable pub finite_number? : Value → Option Float
finite_number? (int n) =
    if ltb (pos_part n) overflow && ltb (neg_part n) overflow then some (of_int n) else none
finite_number? (float x) = if is_finite x then some x else none
finite_number? _ = none

abbrev pub is_some {ℓ} : {A : Type ℓ} → Option A → Bool
is_some none = false
is_some (some _) = true

-- `_same_finite_number`
unfoldable pub same_finite_number : Value → Value → Bool
same_finite_number expected actual =
    is_some (finite_number? expected) && is_some (finite_number? actual) && py_eq expected actual

-- MIN_IMPORTANT_VALUE_CONFIDENCE: the double that is written 0.8
abbrev pub min_important_value_confidence : Float
min_important_value_confidence = fin (pos 3602879701896397) (negsuc 51)

abbrev outside : Option Float → Bool
outside none = true
outside (some x) = float_lt x min_important_value_confidence || float_lt (of_int (pos 1)) x

-- `_confidence_requires_review`
unfoldable pub confidence_requires_review : Value → Bool
confidence_requires_review v = outside (finite_number? v)

-- Whether hash(value) is defined.
unfoldable mutual
  pub is_hashable : Value → Bool
  is_hashable (list _) = false
  is_hashable (dict _) = false
  is_hashable (tuple xs) = are_hashable xs
  is_hashable _ = true

  pub are_hashable : Items → Bool
  are_hashable nil = true
  are_hashable (cons x xs) = is_hashable x && are_hashable xs

-- `unit in SUPPORTED_BBOX_UNITS`
unfoldable pub is_supported_unit : Value → Option Bool
is_supported_unit (str u) = some (contains ("pt" ∷ "px" ∷ "mm" ∷ []) u)
is_supported_unit v = if is_hashable v then some false else none

abbrev at_least_zero : Option Float → Bool
at_least_zero none = false
at_least_zero (some x) = not (float_lt x (of_int (pos 0)))

abbrev above_zero : Option Float → Bool
above_zero none = false
above_zero (some x) = float_lt (of_int (pos 0)) x

-- The coordinates of a box: all numbers, on the page, and of some extent.
unfoldable pub has_extent : Fields → Bool
has_extent bbox =
    at_least_zero (finite_number? (get bbox "x"))
    && at_least_zero (finite_number? (get bbox "y"))
    && above_zero (finite_number? (get bbox "width"))
    && above_zero (finite_number? (get bbox "height"))

unfoldable pub is_supported_bbox : Fields → Option Bool
is_supported_bbox bbox =
    if has bbox "origin" && not (py_eq (get bbox "origin") (str "top-left"))
    then some false
    else if has bbox "unit"
    then elim (is_supported_unit (get bbox "unit")) [
      | none ↦ none
      | some false ↦ some false
      | some true ↦ some (has_extent bbox)
    ]
    else some (has_extent bbox)

unfoldable pub is_page : Value → Bool
is_page (int n) = ltb_ℤ (pos 0) n
is_page _ = false

unfoldable pub is_bbox : Value → Option Bool
is_bbox (dict bbox) = is_supported_bbox bbox
is_bbox _ = some false

-- `_is_source_anchor`
unfoldable pub is_source_anchor : Value → Option Bool
is_source_anchor (dict anchor) =
    if is_page (get anchor "source_page") then is_bbox (get anchor "bbox") else some false
is_source_anchor _ = some false

-- `a and b` where both may raise
abbrev pub and_then : Option Bool → Option Bool → Option Bool
and_then none b = none
and_then (some false) b = some false
and_then (some true) b = b

-- `_evidence_matches`
unfoldable pub evidence_matches : Value → Value → Option Bool
evidence_matches expected actual =
    and_then (is_source_anchor expected)
      (and_then (is_source_anchor actual) (some (py_eq expected actual)))

anchor_of_metadata : Value → Value
anchor_of_metadata (dict metadata) =
    if has metadata "source_page" || has metadata "bbox"
    then dict
        (field "source_page" (get metadata "source_page") (field "bbox" (get metadata "bbox") end))
    else null
anchor_of_metadata _ = null

-- `_record_source_anchor`
unfoldable pub record_source_anchor : Fields → Value
unfolding anchor_of_metadata
record_source_anchor record' =
    if has record' "evidence"
    then get record' "evidence"
    else if has record' "source"
    then get record' "source"
    else anchor_of_metadata (get record' "value_metadata")

abbrev is_one_of : List String → Value → Bool
is_one_of words (str s) = contains words s
is_one_of words _ = false

-- `_is_high_risk`
unfoldable pub is_high_risk : Fields → Bool
is_high_risk r = is_one_of ("high" ∷ "critical" ∷ []) (get r "risk_level")

-- `_has_malformed_risk_level`
unfoldable pub has_malformed_risk_level : Fields → Bool
has_malformed_risk_level r =
    has r "risk_level"
    && not (is_one_of ("low" ∷ "medium" ∷ "high" ∷ "critical" ∷ []) (get r "risk_level"))

-- `_has_missing_or_malformed_risk_level`
unfoldable pub has_missing_or_malformed_risk_level : Fields → Bool
has_missing_or_malformed_risk_level r = not (has r "risk_level") || has_malformed_risk_level r

-- `value is True`
abbrev pub is_true : Value → Bool
is_true (bool true) = true
is_true _ = false

abbrev pub is_false : Value → Bool
is_false (bool false) = true
is_false _ = false

abbrev pub is_bool : Value → Bool
is_bool (bool _) = true
is_bool _ = false

-- The field of the nested record that is the value, where it has one.
abbrev nested : String → Value → List Value
nested key (dict fs) = if has fs key then get fs key ∷ [] else []
nested key _ = []

-- The values that `_review_flag` and `_has_malformed_review_flag` look at.
unfoldable pub review_values : Fields → List Value
review_values r =
    let metadata = nested "requires_review" (get r "value_metadata") in
    if has r "requires_review" then get r "requires_review" ∷ metadata else metadata

any_value : (Value → Bool) → List Value → Bool
any_value p [] = false
any_value p (v ∷ vs) = p v || any_value p vs

-- `_review_flag(record) is True`
unfoldable pub requires_review : Fields → Bool
unfolding any_value
requires_review r = any_value is_true (review_values r)

-- `_has_review_flag`
unfoldable pub has_review_flag : Fields → Bool
unfolding any_value
has_review_flag r = any_value is_true (review_values r) || any_value is_false (review_values r)

-- `_has_malformed_review_flag`
unfoldable pub has_malformed_review_flag : Fields → Bool
unfolding any_value
has_malformed_review_flag r = any_value (λ v. not (is_bool v)) (review_values r)

-- `_category_from_record_value(record) in GMP_REVIEW_REQUIRED_CATEGORIES`, whose category is
-- "numeric_value" or none
unfoldable pub has_number : Fields → Bool
has_number r = number_expected (get r "expected_value") || number_expected (get r "value")

-- `_category_from_value_type` of any value
unfoldable pub type_category : Value → String
type_category (str s) = category_from_value_type s
type_category _ = ""

module _ (known : List String) where
  -- `_normalized_category` of any value
  unfoldable pub category_of : Value → String
  category_of (str s) = normalized_category known s
  category_of _ = ""

  -- `_gmp_category_requires_review`
  unfoldable pub gmp_category_requires_review : Fields → Bool
  gmp_category_requires_review r =
      is_review_required (category_of (get r "gmp_review_category"))
      || is_review_required (category_of (get r "field_category"))
      || is_review_required (category_of (get r "field_id"))
      || is_review_required (category_of (get r "label_id"))
      || is_review_required (category_of (get r "label"))
      || is_review_required (type_category (get r "value_type"))
      || has_number r

  -- `_has_malformed_explicit_gmp_category`
  unfoldable pub has_malformed_explicit_gmp_category : Fields → Bool
  has_malformed_explicit_gmp_category r =
      has r "gmp_review_category"
      && not (is_review_required (category_of (get r "gmp_review_category")))

  -- `_required_column_requires_review`
  unfoldable pub required_column_requires_review : Value → Bool
  required_column_requires_review column =
      is_review_required (category_of column)
      || is_review_required (category_from_value_type (category_of column))

  unfoldable pub any_column : Items → Bool
  any_column nil = false
  any_column (cons c cs) = required_column_requires_review c || any_column cs

  unfoldable pub columns_require_review : Value → Bool → Bool
  columns_require_review (list cs) present = any_column cs
  columns_require_review _ present = present

  -- `_table_gmp_category_requires_review`
  unfoldable pub table_gmp_category_requires_review : Fields → Bool
  table_gmp_category_requires_review table =
      gmp_category_requires_review table
      || columns_require_review (get table "required_columns") (has table "required_columns")

is_text : Value → Bool
is_text (str s) = not (is_blank s)
is_text _ = false

all_text : Items → Bool
unfolding is_text
all_text nil = true
all_text (cons x xs) = is_text x && all_text xs

well_formed_columns : Value → Bool
unfolding all_text
well_formed_columns (list nil) = false
well_formed_columns (list (cons x xs)) = is_text x && all_text xs
well_formed_columns _ = false

-- `_has_malformed_required_columns`
unfoldable pub has_malformed_required_columns : Fields → Bool
unfolding well_formed_columns
has_malformed_required_columns r =
    has r "required_columns" && not (well_formed_columns (get r "required_columns"))
