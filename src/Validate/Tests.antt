-- ===== src/Validate/Tests.antt =====
-- Runs of the automatic validation (core/validate/automatic.py).
use veri_doc.Prelude.{none, String, ◌≡◌, refl, true, false, ◌↔◌, ◌⊎◌, arith, List, [], ◌∷◌, some}
use veri_doc.Prelude.Int.{pos, negsuc, ◌-ℤ◌}
use veri_doc.Prelude.Dict
use veri_doc.Prelude.Lists.{contains, any, all, unique_from}
use veri_doc.Py.Float.{fin, float_eq, float_lt, is_finite}
use veri_doc.Py.Value.{
  Fields, end, field, str, int, float, bool, list, nil, cons, dict, has, get, py_eq, bytes_eq,
}
use veri_doc.Py.Text.{strip, is_blank, casefold, ends_with, has_part, normalize_space}
use veri_doc.Validate.Categories.{
  slug, contains_category_token, find_token, date_or_self, by_token, by_alias, normalized_category,
  category_from_value_type, is_review_required,
}
use veri_doc.Validate.Records.{
  same_non_empty_string, number_expected, finite_number?, same_finite_number,
  confidence_requires_review, is_hashable, is_supported_unit, has_extent, is_supported_bbox,
  is_page, is_bbox, is_source_anchor, evidence_matches, record_source_anchor, is_high_risk,
  has_malformed_risk_level, has_missing_or_malformed_risk_level, review_values, requires_review,
  has_review_flag, has_malformed_review_flag, has_number, category_of, type_category,
  gmp_category_requires_review, has_malformed_explicit_gmp_category,
  required_column_requires_review, any_column, columns_require_review,
  table_gmp_category_requires_review, has_malformed_required_columns,
}
use veri_doc.Validate.Conditions.{
  source_marker_indicates_ocr, engine_name_indicates_ocr, name_of, name_of_extractor,
  name_of_metadata, extractor_name, ocr_derived, extraction_engine, engines_differ,
  extraction_engine_mismatch, llm_involved, condition_warnings, gmp_condition_review_warnings,
  with_inherited_condition_metadata,
}
use veri_doc.Validate.Decision.{decision, ValidationDecision, pass, block_auto_confirm}
use veri_doc.Validate.Item.{
  same_non_blank_normalized_text, values_match, auto_confirmed_is_malformed, auto_confirmed,
  same_key, present_scope, whole_scope, item_important, item_low_confidence, item_failures,
  item_conditions, item_review, item_rules, item_decision, validate_extracted_item,
}
use veri_doc.Validate.Table.{
  cells_by_id, ids_among, matching_cells, changed_text, low_confidence, cell_important,
  cell_failures, cell_report, validate_table_cell, validate_cells, table_important, table_failures,
  compare_cells, table_decision, validate_table_consistency,
}
use veri_doc.Validate.Gate.{Allowed, Cleared, validate_extracted_item-gate}
use veri_doc.Validate.Names.{category_names, validate_extracted_item-any_order}
use veri_doc.Validate.Override.{validate_extracted_item-override}

-- Opening this opens the whole validation.
runs : Unit {0}
unfolding ◌-ℤ◌ Dict.get Dict.put contains any all unique_from float_eq float_lt is_finite has get
    py_eq bytes_eq strip is_blank casefold ends_with has_part normalize_space slug
    contains_category_token find_token date_or_self by_token by_alias normalized_category
    category_from_value_type is_review_required same_non_empty_string number_expected finite_number?
    same_finite_number confidence_requires_review is_hashable is_supported_unit has_extent
    is_supported_bbox is_page is_bbox is_source_anchor evidence_matches record_source_anchor
    is_high_risk has_malformed_risk_level has_missing_or_malformed_risk_level review_values
    requires_review has_review_flag has_malformed_review_flag has_number category_of type_category
    gmp_category_requires_review has_malformed_explicit_gmp_category required_column_requires_review
    any_column columns_require_review table_gmp_category_requires_review
    has_malformed_required_columns source_marker_indicates_ocr engine_name_indicates_ocr name_of
    name_of_extractor name_of_metadata extractor_name ocr_derived extraction_engine engines_differ
    extraction_engine_mismatch llm_involved condition_warnings gmp_condition_review_warnings
    with_inherited_condition_metadata decision same_non_blank_normalized_text values_match
    auto_confirmed_is_malformed auto_confirmed same_key present_scope whole_scope item_important
    item_low_confidence item_failures item_conditions item_review item_rules item_decision
    validate_extracted_item cells_by_id ids_among matching_cells changed_text low_confidence
    cell_important cell_failures cell_report validate_table_cell validate_cells table_important
    table_failures compare_cells table_decision validate_table_consistency
runs = tt

abbrev anchor : Fields
anchor = field "source_page" (int (pos 1)) (
    field "bbox"
      (dict (
        field "x" (int (pos 10)) (
          field "y" (int (pos 20))
            (field "width" (float (fin (pos 3) (negsuc 0))) (field "height" (int (pos 5)) end)))))
      end)

-- A remark of low risk that needs no review.
abbrev expected : Fields
expected = field "id" (str "i-1") (
    field "label_id" (str "remark") (
      field "fixture_id" (str "f") (
        field "document_id" (str "d") (
          field "block_id" (str "b") (
            field "expected_value" (str "as found") (
              field "evidence" (dict anchor)
                (field "risk_level" (str "low") (field "requires_review" (bool false) end))))))))

abbrev extracted : Fields → Fields
extracted rest = field "id" (str "i-1") (
    field "label_id" (str "remark") (
      field "fixture_id" (str "f") (
        field "document_id" (str "d") (
          field "block_id" (str "b")
            (field "value" (str " as  found ") (field "evidence" (dict anchor) rest))))))

abbrev actual : Fields
actual = extracted (field "confidence" (float (fin (pos 15) (negsuc 3))) end)

-- The same item, confirmed by the extractor, with a low confidence.
abbrev confirmed : Fields
confirmed =
    extracted
      (field "auto_confirmed" (bool true) (field "confidence" (float (fin (pos 1) (negsuc 0))) end))

abbrev passed : ValidationDecision
passed = record {
  status = pass;
  auto_confirm_allowed = true;
  needs_review = false;
  failed_rules = [];
  warnings = [];
}

abbrev blocked : ValidationDecision
blocked = record {
  status = block_auto_confirm;
  auto_confirm_allowed = false;
  needs_review = true;
  failed_rules = "risk_gate" ∷ [];
  warnings = "item confidence requires human review" ∷ "item requires human review" ∷ [];
}

abbrev cell : Fields
cell = field "id" (str "c-1") (
    field "text" (str "ok")
      (field "source" (dict anchor) (field "requires_review" (bool false) end)))

abbrev table : Fields
table = field "id" (str "t-1") (
    field "fixture_table_id" (str "t-1")
      (field "risk_level" (str "low") (field "cells" (list (cons (dict cell) nil)) end)))

item_passes : validate_extracted_item category_names expected actual ≡ some passed
unfolding runs
item_passes = refl

item_is_blocked : validate_extracted_item category_names expected confirmed ≡ some blocked
unfolding runs
item_is_blocked = refl

-- The anchor with a list for the unit of its box.
abbrev listed_unit : Fields
listed_unit =
    field "source_page" (int (pos 1)) (field "bbox" (dict (field "unit" (list nil) end)) end)

unhashable_unit_raises : is_source_anchor (dict listed_unit) ≡ none
unfolding runs
unhashable_unit_raises = refl

table_passes : validate_table_consistency category_names (λ cells. cells) table table ≡ some passed
unfolding runs
table_passes = refl

validate_extracted_item-gate_example :
    Allowed category_names expected actual ↔ Cleared category_names expected actual
validate_extracted_item-gate_example = validate_extracted_item-gate category_names expected actual

validate_extracted_item-override_example :
    (blocked.status ≡ pass) ⊎ (blocked.status ≡ block_auto_confirm)
unfolding runs
validate_extracted_item-override_example =
    validate_extracted_item-override category_names expected confirmed refl blocked refl

abbrev swapped : List String → List String
swapped (x ∷ y ∷ xs) = y ∷ x ∷ xs
swapped xs = xs

contains-swapped : (xs : List String) (s : String) → contains (swapped xs) s ≡ contains xs s
unfolding contains
contains-swapped [] s = refl
contains-swapped (x ∷ []) s = refl
contains-swapped (x ∷ y ∷ xs) s = ground arith

validate_extracted_item-any_order_example :
    validate_extracted_item (swapped category_names) expected actual
    ≡ validate_extracted_item category_names expected actual
validate_extracted_item-any_order_example =
    validate_extracted_item-any_order (swapped category_names) category_names
      (contains-swapped category_names) (λ s. refl) expected actual
