-- ===== src/Validate/Table.antt =====
-- `validate_table_consistency` of core/validate/automatic.py. `none` is the TypeError of an anchor
-- whose unit cannot be hashed.
use Prim.Native.String.{◌++◌ as push_str}
use veri_doc.Prelude.{
  String, Bool, true, false, ◌&&◌, ◌||◌, not, List, [], ◌∷◌, ◌++◌, Option, none, some,
  if◌then◌else◌,
}
use veri_doc.Prelude.Dict
use veri_doc.Prelude.Dict.{Dict}
use veri_doc.Py.Value.{Value, Items, Fields, nil, cons, list, dict, str, has, get}
use veri_doc.Py.Text.{is_blank}
use veri_doc.Validate.Records.{
  same_non_empty_string, confidence_requires_review, evidence_matches, record_source_anchor,
  is_high_risk, has_malformed_risk_level, has_missing_or_malformed_risk_level, requires_review,
  has_review_flag, has_malformed_review_flag, gmp_category_requires_review,
  has_malformed_explicit_gmp_category, table_gmp_category_requires_review,
  has_malformed_required_columns,
}
use veri_doc.Validate.Conditions.{
  given, gmp_condition_review_warnings, with_inherited_condition_metadata,
}
use veri_doc.Validate.Decision.{ValidationDecision, decision, not_empty}
use veri_doc.Validate.Item.{
  same_non_blank_normalized_text, auto_confirmed_is_malformed, auto_confirmed, same_key,
}

-- What a part of the table adds: failed rules, warnings, and whether it requires review.
pub record Report : Type 0 where
  pub failed : List String
  pub messages : List String
  pub review : Bool

-- A list of cells with an id each, as a dict.
cells_from : Dict Fields → Items → Option (Dict Fields)
cells_from cells nil = some cells
cells_from cells (cons (dict cell) rest) = elim (get cell "id") [
  | str id ↦
      if is_blank id || Dict.is_some (Dict.get cells id)
      then none
      else cells_from (Dict.put cells id cell) rest
  | _ ↦ none
]
cells_from cells (cons _ rest) = none

-- `_cells_by_id`
unfoldable pub cells_by_id : Value → Option (Dict Fields)
unfolding cells_from
cells_by_id (list nil) = none
cells_by_id (list (cons x xs)) = cells_from [] (cons x xs)
cells_by_id _ = none

-- Whether each id of `cells` is one of `others`.
unfoldable pub ids_among : Dict Fields → Dict Fields → Bool
ids_among others [] = true
ids_among others ((id, _) ∷ cells) = Dict.is_some (Dict.get others id) && ids_among others cells

-- The cells of the matching ids.
unfoldable pub matching_cells : Dict Fields → Dict Fields → List (Fields × Fields)
matching_cells [] actual = []
matching_cells ((id, cell) ∷ expected) actual =
    let rest = matching_cells expected actual in
    elim (Dict.get actual id) [ none ↦ rest | some found ↦ (cell, found) ∷ rest ]

unfoldable pub changed_text : List (Fields × Fields) → Bool
changed_text [] = false
changed_text ((expected, actual) ∷ cells) =
    not (same_non_blank_normalized_text (get expected "text") (get actual "text"))
    || changed_text cells

-- `"confidence" in record and _confidence_requires_review(record.get("confidence"))`
unfoldable pub low_confidence : Fields → Bool
low_confidence r = has r "confidence" && confidence_requires_review (get r "confidence")

abbrev pub cell_messages : List String → List String
cell_messages [] = []
cell_messages (message ∷ messages) = push_str "table cell " message ∷ cell_messages messages

module _ (known : List String) where
  -- The part of the review requirement that a cell has from its table and from itself.
  unfoldable pub cell_important : Bool → Fields → Fields → Bool
  cell_important table expected actual =
      table
      || (requires_review expected || requires_review actual)
      || (is_high_risk expected || is_high_risk actual)
      || (gmp_category_requires_review known expected || gmp_category_requires_review known actual)

  unfoldable pub cell_failures : Fields → Fields → Bool → List String
  cell_failures expected actual evidence =
      given (not evidence) "provenance"
      ++ given (auto_confirmed_is_malformed actual) "risk_gate"
      ++ given (has_malformed_review_flag expected || has_malformed_review_flag actual) "risk_gate"
      ++ given (has_malformed_risk_level expected || has_malformed_risk_level actual) "risk_gate"
      ++ given
          (has_malformed_explicit_gmp_category known expected
            || has_malformed_explicit_gmp_category known actual)
          "risk_gate"
      ++ given (not (has_review_flag expected)) "risk_gate"

  unfoldable pub cell_report : Bool → Fields → Fields → Bool → List String → Report
  cell_report table expected actual evidence conditions =
      let review =
        cell_important table expected actual || low_confidence actual || not_empty conditions in
      record {
        failed =
            cell_failures expected actual evidence
            ++ given (review && auto_confirmed actual) "risk_gate";
        messages =
            given (low_confidence actual) "table cell confidence requires human review"
            ++ cell_messages conditions
            ++ given review "table cell requires human review";
        review = review;
      }

  -- `_validate_table_cell`; `table` is what the table itself requires.
  unfoldable pub validate_table_cell : Fields → Fields → Bool → Fields → Fields → Option Report
  validate_table_cell expected_table actual_table table expected actual =
      elim (evidence_matches (record_source_anchor expected) (record_source_anchor actual)) [
        | none ↦ none
        | some evidence ↦
            elim (gmp_condition_review_warnings
              (with_inherited_condition_metadata expected_table expected)
              (with_inherited_condition_metadata actual_table actual)
              (cell_important table expected actual)) [
                | none ↦ none
                | some conditions ↦ some (cell_report table expected actual evidence conditions)
              ]
      ]

  abbrev pub joined : Option Report → Option Report → Option Report
  joined none rest = none
  joined (some a) none = none
  joined (some a) (some b) = some (record {
    failed = a.failed ++ b.failed;
    messages = a.messages ++ b.messages;
    review = a.review || b.review;
  })

  unfoldable pub validate_cells : Fields → Fields → Bool → List (Fields × Fields) → Option Report
  validate_cells expected_table actual_table table [] =
      some (record { failed = []; messages = []; review = false })
  validate_cells expected_table actual_table table ((expected, actual) ∷ cells) =
      joined (validate_table_cell expected_table actual_table table expected actual)
        (validate_cells expected_table actual_table table cells)

  -- What the table requires by its own fields.
  unfoldable pub table_important : Fields → Fields → Bool
  table_important expected actual =
      (requires_review expected || requires_review actual)
      || (is_high_risk expected || is_high_risk actual)
      || (table_gmp_category_requires_review known expected
          || table_gmp_category_requires_review known actual)
      || low_confidence actual

  unfoldable pub table_failures : Fields → Fields → List String
  table_failures expected actual =
      given (not (same_key expected actual "id")) "table_consistency"
      ++ given (not (same_non_empty_string (get expected "fixture_table_id") (get expected "id")))
          "table_consistency"
      ++ given (has_malformed_review_flag expected || has_malformed_review_flag actual) "risk_gate"
      ++ given (has_malformed_required_columns expected || has_malformed_required_columns actual)
          "risk_gate"
      ++ given (has_missing_or_malformed_risk_level expected || has_malformed_risk_level actual)
          "risk_gate"
      ++ given
          (has_malformed_explicit_gmp_category known expected
            || has_malformed_explicit_gmp_category known actual)
          "risk_gate"
      ++ given (auto_confirmed_is_malformed actual) "risk_gate"

  -- The comparison of the cells; `order` is Python's order of the set of the matching ids.
  unfoldable pub compare_cells :
      (List (Fields × Fields) → List (Fields × Fields))
      → Fields
      → Fields
      → Option (Dict Fields)
      → Option (Dict Fields)
      → Option Report
  compare_cells order expected actual (some es) (some as') =
      let cells = order (matching_cells es as') in
      joined
        (some (record {
          failed =
              given (not (ids_among as' es && ids_among es as') || changed_text cells)
                "table_consistency";
          messages = [];
          review = false;
        }))
        (validate_cells expected actual (table_important expected actual) cells)
  compare_cells order expected actual _ _ =
      some (record { failed = "table_consistency" ∷ []; messages = []; review = false })

  unfoldable pub table_decision : Fields → Fields → Report → ValidationDecision
  table_decision expected actual cells =
      let review = table_important expected actual || cells.review in
      let failed =
        table_failures expected actual
        ++ cells.failed
        ++ given (review && auto_confirmed actual) "risk_gate" in
      decision failed
        (given (low_confidence actual) "table confidence requires human review"
          ++ cells.messages
          ++ given (not_empty failed) "table content requires human review")
        (not_empty failed || review)

  -- `validate_table_consistency`
  unfoldable pub validate_table_consistency :
      (List (Fields × Fields) → List (Fields × Fields))
      → Fields
      → Fields
      → Option ValidationDecision
  validate_table_consistency order expected actual =
      elim (compare_cells order expected actual (cells_by_id (get expected "cells"))
        (cells_by_id (get actual "cells"))) [
          | none ↦ none
          | some cells ↦ some (table_decision expected actual cells)
        ]
