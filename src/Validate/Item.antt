-- ===== src/Validate/Item.antt =====
-- `validate_extracted_item` of core/validate/automatic.py. `none` is the TypeError of an anchor
-- whose unit cannot be hashed.
use veri_doc.Prelude.{
  String, Bool, true, false, ◌&&◌, ◌||◌, not, List, [], ◌∷◌, ◌++◌, Option, none, some, ◌==◌,
  if◌then◌else◌,
}
use veri_doc.Py.Value.{Value, Fields, bool, str, has, get}
use veri_doc.Py.Text.{normalize_space}
use veri_doc.Validate.Records.{
  same_non_empty_string, number_expected, same_finite_number, confidence_requires_review,
  evidence_matches, record_source_anchor, is_high_risk, has_malformed_risk_level,
  has_missing_or_malformed_risk_level, requires_review, has_review_flag, has_malformed_review_flag,
  gmp_category_requires_review, has_malformed_explicit_gmp_category, is_bool, is_true,
}
use veri_doc.Validate.Conditions.{condition_warnings, given}
use veri_doc.Validate.Decision.{ValidationDecision, decision, not_empty}

-- `_same_non_blank_normalized_text`
unfoldable pub same_non_blank_normalized_text : Value → Value → Bool
same_non_blank_normalized_text (str expected) (str actual) =
    not (normalize_space expected == "") && normalize_space expected == normalize_space actual
same_non_blank_normalized_text _ _ = false

abbrev pub is_the_bool : Bool → Value → Bool
is_the_bool true (bool b) = b
is_the_bool false (bool b) = not b
is_the_bool b _ = false

-- `_values_match`
unfoldable pub values_match : Value → Value → Bool
values_match (bool b) actual = is_the_bool b actual
values_match expected actual =
    if number_expected expected
    then same_finite_number expected actual
    else same_non_blank_normalized_text expected actual

-- A value of "auto_confirmed" that is no bool fails the risk gate.
unfoldable pub auto_confirmed_is_malformed : Fields → Bool
auto_confirmed_is_malformed r = has r "auto_confirmed" && not (is_bool (get r "auto_confirmed"))

-- A missing "auto_confirmed" is False, and one that is no bool counts as True.
unfoldable pub auto_confirmed : Fields → Bool
auto_confirmed r =
    has r "auto_confirmed"
    && (is_true (get r "auto_confirmed") || not (is_bool (get r "auto_confirmed")))

abbrev pub scope_keys : List String
scope_keys = "fixture_id" ∷ "document_id" ∷ "block_id" ∷ []

unfoldable pub same_key : Fields → Fields → String → Bool
same_key expected actual key = same_non_empty_string (get expected key) (get actual key)

-- The scope keys that the expected record has.
unfoldable pub present_scope : Fields → Fields → List String → List String
present_scope expected actual [] = []
present_scope expected actual (key ∷ keys) =
    given (has expected key && not (same_key expected actual key)) "scope_binding"
    ++ present_scope expected actual keys

unfoldable pub whole_scope : Fields → Fields → List String → List String
whole_scope expected actual [] = []
whole_scope expected actual (key ∷ keys) =
    given (not (same_key expected actual key)) "scope_binding" ++ whole_scope expected actual keys

unfoldable pub item_low_confidence : Fields → Bool
item_low_confidence actual = confidence_requires_review (get actual "confidence")

module _ (known : List String) (expected actual : Fields) where
  unfoldable pub item_important : Bool
  item_important =
      (requires_review expected || requires_review actual)
      || (is_high_risk expected || is_high_risk actual)
      || (gmp_category_requires_review known expected || gmp_category_requires_review known actual)

  -- The rules that fail up to the review requirement.
  unfoldable pub item_failures : Bool → List String
  item_failures evidence =
      given (not (same_key expected actual "id")) "scope_binding"
      ++ given (not (same_key expected actual "label_id")) "scope_binding"
      ++ present_scope expected actual scope_keys
      ++ given (not (values_match (get expected "expected_value") (get actual "value")))
          "value_non_modification"
      ++ given (not evidence) "provenance"
      ++ given
          (number_expected (get expected "expected_value")
            && not (same_finite_number (get expected "expected_value") (get actual "value")))
          "numeric"
      ++ given (auto_confirmed_is_malformed actual) "risk_gate"
      ++ given (item_low_confidence actual && auto_confirmed actual) "risk_gate"
      ++ given (has_malformed_review_flag expected || has_malformed_review_flag actual) "risk_gate"
      ++ given (has_missing_or_malformed_risk_level expected || has_malformed_risk_level actual)
          "risk_gate"
      ++ given
          (has_malformed_explicit_gmp_category known expected
            || has_malformed_explicit_gmp_category known actual)
          "risk_gate"
      ++ given (not (has_review_flag expected)) "risk_gate"

  unfoldable pub item_conditions : Bool → List String
  item_conditions evidence = condition_warnings expected actual item_important evidence

  unfoldable pub item_review : Bool → Bool
  item_review evidence =
      item_important || item_low_confidence actual || not_empty (item_conditions evidence)

  -- All the rules that fail: the scope keys must all be there where no review is required.
  unfoldable pub item_rules : Bool → List String
  item_rules evidence =
      item_failures evidence
      ++ (if item_important then [] else whole_scope expected actual scope_keys)
      ++ given (item_review evidence && auto_confirmed actual) "risk_gate"

  unfoldable pub item_decision : Bool → ValidationDecision
  item_decision evidence =
      decision (item_rules evidence)
        (given (item_low_confidence actual) "item confidence requires human review"
          ++ item_conditions evidence
          ++ given (item_review evidence) "item requires human review")
        (item_review evidence)

  -- `validate_extracted_item`
  unfoldable pub validate_extracted_item : Option ValidationDecision
  validate_extracted_item =
      elim (evidence_matches (record_source_anchor expected) (record_source_anchor actual)) [
        | none ↦ none
        | some evidence ↦ some (item_decision evidence)
      ]
