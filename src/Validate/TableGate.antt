-- ===== src/Validate/TableGate.antt =====
-- When `validate_table_consistency` (core/validate/automatic.py) allows an automatic confirmation.
use veri_doc.Prelude.{String, ◌≡◌, Bool, true, false, ◌&&◌, ◌||◌, not, List, Option, none, some}
use veri_doc.Prelude.Dict
use veri_doc.Prelude.Dict.{Dict}
use veri_doc.Prelude.Lists.{all}
use veri_doc.Py.Value.{Fields, get}
use veri_doc.Validate.Records.{
  evidence_matches, record_source_anchor, has_missing_or_malformed_risk_level, has_review_flag,
  has_malformed_risk_level, has_malformed_review_flag, has_malformed_explicit_gmp_category,
  has_malformed_required_columns, same_non_empty_string,
}
use veri_doc.Validate.Conditions.{
  ocr_derived, extraction_engine_mismatch, with_inherited_condition_metadata,
}
use veri_doc.Validate.Item.{same_non_blank_normalized_text, same_key, auto_confirmed_is_malformed}
use veri_doc.Validate.Table.{
  cells_by_id, ids_among, low_confidence, cell_important, table_important,
}

-- Going through a set in some order meets each of its members.
abbrev pub IsOrder : (List (Fields × Fields) → List (Fields × Fields)) → Type 0
IsOrder order =
    (p : Fields × Fields → Bool) (cells : List (Fields × Fields))
    → all p (order cells) ≡ all p cells

abbrev is_matched : Option Bool → Bool
is_matched (some b) = b
is_matched none = false

-- The fields of the gates are well formed, those of the expected risk level aside.
abbrev pub is_well_formed : List String → Fields → Fields → Bool
is_well_formed known expected actual =
    not (auto_confirmed_is_malformed actual)
    && not (has_malformed_review_flag expected || has_malformed_review_flag actual)
    && not (
        has_malformed_explicit_gmp_category known expected
        || has_malformed_explicit_gmp_category known actual)

-- Neither record comes from OCR, and their engines are the same.
abbrev pub is_same_extraction : Fields → Fields → Bool
is_same_extraction expected actual =
    not (ocr_derived expected || ocr_derived actual)
    && not (extraction_engine_mismatch expected actual)

-- A cell that agrees with the expected one, is well formed, and that neither its own fields nor the
-- extraction metadata, its own or its table's, give to a person to review.
abbrev pub is_clear : List String → Fields → Fields → Fields × Fields → Bool
is_clear known expected_table actual_table (expected, actual) =
    is_matched (evidence_matches (record_source_anchor expected) (record_source_anchor actual))
    && not (cell_important known false expected actual)
    && not (low_confidence actual)
    && has_review_flag expected
    && is_well_formed known expected actual
    && not (has_malformed_risk_level expected || has_malformed_risk_level actual)
    && is_same_extraction (with_inherited_condition_metadata expected_table expected)
        (with_inherited_condition_metadata actual_table actual)

abbrev same_text : Fields × Fields → Bool
same_text (expected, actual) =
    same_non_blank_normalized_text (get expected "text") (get actual "text")

module _ (known : List String) where
  -- What a table needs to be confirmed without a person: both tables have well-formed cells, of the
  -- same ids, and each pair of cells agrees.
  pub record TableCleared (expected actual : Fields) : Type 0 where
    pub same_table : same_key expected actual "id" ≡ true
    pub same_fixture :
        same_non_empty_string (get expected "fixture_table_id") (get expected "id") ≡ true
    pub unimportant : table_important known expected actual ≡ false
    pub risk_known :
        (has_missing_or_malformed_risk_level expected || has_malformed_risk_level actual) ≡ false
    pub well_formed : is_well_formed known expected actual ≡ true
    pub well_formed_columns :
        (has_malformed_required_columns expected || has_malformed_required_columns actual) ≡ false
    pub expected_cells : Dict Fields
    pub actual_cells : Dict Fields
    pub has_expected : cells_by_id (get expected "cells") ≡ some expected_cells
    pub has_actual : cells_by_id (get actual "cells") ≡ some actual_cells
    pub none_extra : ids_among expected_cells actual_cells ≡ true
    pub none_missing : ids_among actual_cells expected_cells ≡ true
    pub clear_cells :
        (id : String) (e a : Fields)
        → Dict.get expected_cells id ≡ some e
        → Dict.get actual_cells id ≡ some a
        → (same_text (e, a) ≡ true) × (is_clear known expected actual (e, a) ≡ true)
