-- ===== src/Validate/Verdict.antt =====
-- `_decision` of core/validate/automatic.py, and the lists of failed rules that it is given.
use veri_doc.Prelude.{
  String, ◌≡◌, ◌↔◌, refl, Bool, true, false, ◌&&◌, ◌||◌, not, List, [], ◌∷◌, ◌++◌, arith,
}
use veri_doc.Prelude.Lists.{unique_from, contains}
use veri_doc.Validate.Conditions.{given}
use veri_doc.Validate.Decision.{decision, unique, not_empty, pass, block_auto_confirm}

pub not_empty-given : (c : Bool) (m : String) → not_empty (given c m) ≡ c
not_empty-given true m = refl
not_empty-given false m = refl

pub not_empty-append : (xs ys : List String) → not_empty (xs ++ ys) ≡ (not_empty xs || not_empty ys)
not_empty-append [] ys = refl
not_empty-append (x ∷ xs) ys = refl

pub not_empty-unique : (xs : List String) → not_empty (unique xs) ≡ not_empty xs
unfolding unique_from contains
not_empty-unique [] = refl
not_empty-unique (x ∷ xs) = refl

pub decision-allowed :
    (failed warnings : List String) (review : Bool)
    → (decision failed warnings review).auto_confirm_allowed
      ≡ (not (not_empty failed) && not review)
unfolding decision unique_from contains
decision-allowed [] warnings true = refl
decision-allowed [] warnings false = refl
decision-allowed (x ∷ xs) warnings review = refl

pub decision-Passes :
    (failed warnings : List String) (review : Bool)
    → (decision failed warnings review).auto_confirm_allowed ≡ true
    → (not_empty failed ≡ false) × (review ≡ false)
decision-Passes failed warnings review h = ground (arith, decision-allowed failed warnings review)

pub split_empty :
    (xs ys : List String)
    → not_empty (xs ++ ys) ≡ false
    → (not_empty xs ≡ false) × (not_empty ys ≡ false)
split_empty [] ys h = (refl, h)
split_empty (x ∷ xs) ys h = cc

pub not_given : (c : Bool) (m : String) → not_empty (given c m) ≡ false → c ≡ false
not_given true m h = h
not_given false m h = refl

-- The head of a list of failures did not fail, and the others are left.
pub none_failed :
    (c : Bool) (m : String) (rest : List String)
    → not_empty (given c m ++ rest) ≡ false
    → (c ≡ false) × (not_empty rest ≡ false)
none_failed true m rest h = cc
none_failed false m rest h = (refl, h)

-- The decision blocks exactly where a rule failed and passes exactly where it allows the
-- confirmation, which is where no rule failed and no review is required; it asks for a review
-- where it does not allow, and keeps a failed rule where there is one.
pub decision-verdict :
    (failed warnings : List String) (review : Bool)
    → ((decision failed warnings review).status ≡ block_auto_confirm ↔ not_empty failed ≡ true)
      × ((decision failed warnings review).status ≡ pass
          ↔ (decision failed warnings review).auto_confirm_allowed ≡ true)
      × ((decision failed warnings review).auto_confirm_allowed
          ≡ (not (not_empty failed) && not review))
      × ((decision failed warnings review).needs_review
          ≡ not (decision failed warnings review).auto_confirm_allowed)
      × (not_empty (decision failed warnings review).failed_rules ≡ not_empty failed)
unfolding decision unique_from contains
decision-verdict [] warnings true = ground arith
decision-verdict [] warnings false = ground arith
decision-verdict (x ∷ xs) warnings review = ground arith
