-- ===== src/Validate/Override.antt =====
-- What `validate_extracted_item` (core/validate/automatic.py) makes of an item that was confirmed
-- without a person.
use veri_doc.Prelude.{◌≡◌, ◌⊎◌, Bool, true, false, List, String, some, arith}
use veri_doc.Py.Value.{Fields}
use veri_doc.Validate.Decision.{ValidationDecision, not_empty, pass, block_auto_confirm}
use veri_doc.Validate.Item.{
  auto_confirmed, item_review, item_rules, item_decision, validate_extracted_item,
}
use veri_doc.Validate.Verdict.{not_empty-append, not_empty-given, decision-verdict}

module _ (known : List String) (expected actual : Fields)
    (confirmed : auto_confirmed actual ≡ true) where
  rules_block :
      (evidence : Bool)
      → item_review known expected actual evidence ≡ true
      → not_empty (item_rules known expected actual evidence) ≡ true
  unfolding item_rules
  rules_block evidence review = grind (arith, not_empty-append, not_empty-given)

  decision_blocks :
      (evidence : Bool)
      → ((item_decision known expected actual evidence).status ≡ pass)
        ⊎ ((item_decision known expected actual evidence).status ≡ block_auto_confirm)
  unfolding item_decision
  decision_blocks evidence = grind (arith, rules_block evidence, decision-verdict)

  -- The validation of an item that is already confirmed, or whose "auto_confirmed" is no bool,
  -- passes or blocks it and never only requires a review.
  pub validate_extracted_item-override :
      (d : ValidationDecision)
      → validate_extracted_item known expected actual ≡ some d
      → (d.status ≡ pass) ⊎ (d.status ≡ block_auto_confirm)
  unfolding validate_extracted_item
  validate_extracted_item-override d e =
      let matched = decision_blocks true in let unmatched = decision_blocks false in ground arith
