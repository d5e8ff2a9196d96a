-- ===== src/Validate/Gate.antt =====
-- When `validate_extracted_item` (core/validate/automatic.py) allows an automatic confirmation.
use veri_doc.Prelude.{
  String, ◌≡◌, ◌↔◌, refl, Bool, true, false, ◌&&◌, ◌||◌, not, List, [], ◌∷◌, Option, none, some,
  arith,
}
use veri_doc.Prelude.Lists.{all}
use veri_doc.Py.Value.{
  Value, null, bool, int, float, str, bytes, list, tuple, dict, artifact, Fields, get,
}
use veri_doc.Validate.Records.{
  confidence_requires_review, gmp_category_requires_review, is_high_risk, requires_review,
  number_expected, same_finite_number, evidence_matches, record_source_anchor,
  has_malformed_risk_level, has_missing_or_malformed_risk_level, has_review_flag,
  has_malformed_review_flag, has_malformed_explicit_gmp_category,
}
use veri_doc.Validate.Conditions.{ocr_derived, extraction_engine_mismatch, condition_warnings}
use veri_doc.Validate.Decision.{ValidationDecision, not_empty}
use veri_doc.Validate.Verdict.{
  not_empty-given, not_empty-append, decision-allowed, decision-Passes, split_empty, not_given,
  none_failed, not_empty-unique,
}
use veri_doc.Validate.Item.{
  values_match, auto_confirmed_is_malformed, scope_keys, same_key, whole_scope, present_scope,
  item_important, item_low_confidence, item_failures, item_decision, item_rules, item_review,
  item_conditions, validate_extracted_item,
}

-- What an item needs to be confirmed without a person.
pub record Cleared (known : List String) (expected actual : Fields) : Type 0 where
  pub same_id : same_key expected actual "id" ≡ true
  pub same_label : same_key expected actual "label_id" ≡ true
  pub same_scope : all (same_key expected actual) scope_keys ≡ true
  pub same_value : values_match (get expected "expected_value") (get actual "value") ≡ true
  pub anchored :
      evidence_matches (record_source_anchor expected) (record_source_anchor actual) ≡ some true
  pub confident : confidence_requires_review (get actual "confidence") ≡ false
  pub well_formed_confirmation : auto_confirmed_is_malformed actual ≡ false
  pub well_formed_flags :
      (has_malformed_review_flag expected || has_malformed_review_flag actual) ≡ false
  pub well_formed_risk :
      (has_missing_or_malformed_risk_level expected || has_malformed_risk_level actual) ≡ false
  pub well_formed_category :
      (has_malformed_explicit_gmp_category known expected
        || has_malformed_explicit_gmp_category known actual)
      ≡ false
  pub flagged : has_review_flag expected ≡ true
  pub not_flagged : (requires_review expected || requires_review actual) ≡ false
  pub low_risk : (is_high_risk expected || is_high_risk actual) ≡ false
  pub no_gmp_category :
      (gmp_category_requires_review known expected || gmp_category_requires_review known actual)
      ≡ false
  pub no_ocr : (ocr_derived expected || ocr_derived actual) ≡ false
  pub same_engine : extraction_engine_mismatch expected actual ≡ false

-- A number that is no finite number's equal is no match.
numeric_match :
    (expected actual : Value)
    → values_match expected actual ≡ true
    → (number_expected expected && not (same_finite_number expected actual)) ≡ false
unfolding values_match number_expected
numeric_match (bool b) actual h = refl
numeric_match (int n) actual h = ground arith
numeric_match (float x) actual h = ground arith
numeric_match null actual h = refl
numeric_match (str s) actual h = refl
numeric_match (bytes s) actual h = refl
numeric_match (list s) actual h = refl
numeric_match (tuple s) actual h = refl
numeric_match (dict s) actual h = refl
numeric_match (artifact s) actual h = refl

not_empty-whole_scope :
    (expected actual : Fields) (keys : List String)
    → not_empty (whole_scope expected actual keys) ≡ not (all (same_key expected actual) keys)
unfolding whole_scope all
not_empty-whole_scope expected actual [] = refl
not_empty-whole_scope expected actual (key ∷ keys) =
    ground (arith, not_empty-whole_scope expected actual keys)

not_empty-present_scope :
    (expected actual : Fields) (keys : List String)
    → all (same_key expected actual) keys ≡ true
    → not_empty (present_scope expected actual keys) ≡ false
unfolding present_scope all
not_empty-present_scope expected actual [] h = refl
not_empty-present_scope expected actual (key ∷ keys) h =
    ground (arith, not_empty-present_scope expected actual keys)

not_empty-condition_warnings :
    (expected actual : Fields)
    → not_empty (condition_warnings expected actual false true)
      ≡ (ocr_derived expected || ocr_derived actual || extraction_engine_mismatch expected actual)
unfolding condition_warnings
not_empty-condition_warnings expected actual =
    grind (arith, not_empty-unique, not_empty-append, not_empty-given)

module _ (known : List String) (expected actual : Fields) where
  -- The validation answers, and allows the confirmation.
  abbrev pub Allowed : Type 0
  Allowed =
      (d : ValidationDecision) × (validate_extracted_item known expected actual ≡ some d)
      × (d.auto_confirm_allowed ≡ true)

  item_failures-none :
      (evidence : Bool)
      → not_empty (item_failures known expected actual evidence) ≡ false
      → (same_key expected actual "id" ≡ true)
        × (same_key expected actual "label_id" ≡ true)
        × (values_match (get expected "expected_value") (get actual "value") ≡ true)
        × (evidence ≡ true)
        × (auto_confirmed_is_malformed actual ≡ false)
        × ((has_malformed_review_flag expected || has_malformed_review_flag actual) ≡ false)
        × ((has_missing_or_malformed_risk_level expected || has_malformed_risk_level actual)
            ≡ false)
        × ((has_malformed_explicit_gmp_category known expected
              || has_malformed_explicit_gmp_category known actual)
            ≡ false)
        × (has_review_flag expected ≡ true)
  unfolding item_failures
  item_failures-none evidence h = grind (arith, none_failed, split_empty, not_given)

  item_review-none :
      (evidence : Bool)
      → item_review known expected actual evidence ≡ false
      → (item_important known expected actual ≡ false)
        × (confidence_requires_review (get actual "confidence") ≡ false)
        × (not_empty (condition_warnings expected actual false evidence) ≡ false)
  unfolding item_review item_conditions item_low_confidence
  item_review-none evidence h = ground arith

  item_rules-none :
      (evidence : Bool)
      → not_empty (item_rules known expected actual evidence) ≡ false
      → item_important known expected actual ≡ false
      → (not_empty (item_failures known expected actual evidence) ≡ false)
        × (all (same_key expected actual) scope_keys ≡ true)
  unfolding item_rules
  item_rules-none evidence h free = (
    grind (arith, not_empty-append),
    grind (arith, not_empty-append, not_empty-whole_scope expected actual scope_keys),
  )

  item_important-none :
      item_important known expected actual ≡ false
      → ((requires_review expected || requires_review actual) ≡ false)
        × ((is_high_risk expected || is_high_risk actual) ≡ false)
        × ((gmp_category_requires_review known expected
              || gmp_category_requires_review known actual)
            ≡ false)
  unfolding item_important
  item_important-none h = ground arith

  item_allowed-Cleared :
      (evidence : Bool)
      → evidence_matches (record_source_anchor expected) (record_source_anchor actual)
        ≡ some evidence
      → (item_decision known expected actual evidence).auto_confirm_allowed ≡ true
      → Cleared known expected actual
  unfolding item_decision
  item_allowed-Cleared evidence e h =
      let p = decision-Passes _ _ _ h in
      let review = item_review-none evidence p.1 in
      let important = item_important-none review.0 in
      let rules = item_rules-none evidence p.0 review.0 in
      let parts = item_failures-none evidence rules.0 in
      let conditions = not_empty-condition_warnings expected actual in
      record {
        same_id = parts.0;
        same_label = parts.1;
        same_scope = rules.1;
        same_value = parts.2;
        anchored = ground arith;
        confident = review.1;
        well_formed_confirmation = parts.4;
        well_formed_flags = parts.5;
        well_formed_risk = parts.6;
        well_formed_category = parts.7;
        flagged = parts.8;
        not_flagged = important.0;
        low_risk = important.1;
        no_gmp_category = important.2;
        no_ocr = ground arith;
        same_engine = ground arith;
      }

  item_important-Cleared :
      Cleared known expected actual → item_important known expected actual ≡ false
  unfolding item_important
  item_important-Cleared c = ground arith

  item_review-Cleared :
      Cleared known expected actual → item_review known expected actual true ≡ false
  unfolding item_review item_conditions item_low_confidence
  item_review-Cleared c =
      let free = item_important-Cleared c in
      let conditions = not_empty-condition_warnings expected actual in ground arith

  item_failures-Cleared :
      Cleared known expected actual → not_empty (item_failures known expected actual true) ≡ false
  unfolding item_failures item_low_confidence
  item_failures-Cleared c =
      let scope = not_empty-present_scope expected actual scope_keys c.same_scope in
      let number = numeric_match _ _ c.same_value in
      grind (arith, not_empty-append, not_empty-given)

  item_rules-Cleared :
      Cleared known expected actual → not_empty (item_rules known expected actual true) ≡ false
  unfolding item_rules
  item_rules-Cleared c =
      let free = item_important-Cleared c in
      let review = item_review-Cleared c in
      let failures = item_failures-Cleared c in
      let whole = not_empty-whole_scope expected actual scope_keys in
      grind (arith, not_empty-append, not_empty-given)

  item_decision-Cleared :
      Cleared known expected actual
      → (item_decision known expected actual true).auto_confirm_allowed ≡ true
  unfolding item_decision
  item_decision-Cleared c =
      let review = item_review-Cleared c in
      let rules = item_rules-Cleared c in grind (arith, decision-allowed)

  allowed_by :
      (o : Option Bool)
      → evidence_matches (record_source_anchor expected) (record_source_anchor actual) ≡ o
      → (d : ValidationDecision) → validate_extracted_item known expected actual ≡ some d
      → d.auto_confirm_allowed ≡ true
      → Cleared known expected actual
  unfolding validate_extracted_item
  allowed_by none e d ok' allowed = ground arith
  allowed_by (some evidence) e d ok' allowed = item_allowed-Cleared evidence e (ground arith)

  -- The validation of an item answers and allows an automatic confirmation exactly if the item
  -- agrees with the expected record in ids, scope, value and source, every field of the gates is
  -- well formed, and no flag, risk level, GMP category, confidence, OCR source or engine asks for
  -- a review.
  pub validate_extracted_item-gate : Allowed ↔ Cleared known expected actual
  unfolding validate_extracted_item
  validate_extracted_item-gate = (
    λ (d, e, allowed). allowed_by _ refl d e allowed,
    λ c. (item_decision known expected actual true, ground arith, item_decision-Cleared c),
  )
