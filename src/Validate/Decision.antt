-- ===== src/Validate/Decision.antt =====
-- `ValidationDecision` and `_decision` (core/validate/automatic.py).
use veri_doc.Prelude.{String, Bool, true, false, List, [], ◌∷◌}
use veri_doc.Prelude.Lists.{unique_from}

-- `ValidationStatus`
pub data ValidationStatus : Type 0 where
  pass : ValidationStatus
  requires_review : ValidationStatus
  block_auto_confirm : ValidationStatus

pub record ValidationDecision : Type 0 where
  pub status : ValidationStatus
  pub auto_confirm_allowed : Bool
  pub needs_review : Bool
  pub failed_rules : List String
  pub warnings : List String

-- tuple(dict.fromkeys(xs))
abbrev pub unique : List String → List String
unique = unique_from []

decide_unique : List String → List String → Bool → ValidationDecision
decide_unique (rule ∷ rules) warnings review = record {
  status = block_auto_confirm;
  auto_confirm_allowed = false;
  needs_review = true;
  failed_rules = rule ∷ rules;
  warnings = warnings;
}
decide_unique [] warnings true = record {
  status = requires_review;
  auto_confirm_allowed = false;
  needs_review = true;
  failed_rules = [];
  warnings = warnings;
}
decide_unique [] warnings false = record {
  status = pass;
  auto_confirm_allowed = true;
  needs_review = false;
  failed_rules = [];
  warnings = warnings;
}

-- `_decision`
unfoldable pub decision : List String → List String → Bool → ValidationDecision
unfolding decide_unique
decision failed warnings review = decide_unique (unique failed) (unique warnings) review

-- bool(xs)
abbrev pub not_empty : List String → Bool
not_empty [] = false
not_empty (_ ∷ _) = true
