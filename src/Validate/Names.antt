-- ===== src/Validate/Names.antt =====
-- The order in which `_normalized_category` (core/validate/automatic.py) tries the known categories
-- of one length.
use veri_doc.Prelude.{
  String, ◌≡◌, ◌⊎◌, inl, inr, refl, sym, Bool, true, false, List, [], ◌∷◌, ◌++◌, Option, none, some,
  arith, eq_iff, eq_refl, Bool-cases, ◌==◌,
}
use veri_doc.Prelude.Dict
use veri_doc.Prelude.Dict.{Dict}
use veri_doc.Prelude.Lists.{any, all, contains}
use veri_doc.Py.Value.{
  Value, null, bool, int, float, str, bytes, list, tuple, dict, artifact, Fields, get,
}
use veri_doc.Validate.Categories.{
  gmp_review_required_categories, gmp_review_category_aliases, contains_category_token, find_token,
  by_token, by_alias, normalized_category, is_review_required,
}
use veri_doc.Validate.Records.{
  category_of, gmp_category_requires_review, has_malformed_explicit_gmp_category,
}
use veri_doc.Validate.Item.{
  item_important, item_failures, item_conditions, item_review, item_rules, item_decision,
  validate_extracted_item,
}

abbrev keys : Dict String → List String
keys [] = []
keys ((k, _) ∷ d) = k ∷ keys d

-- GMP_REVIEW_REQUIRED_CATEGORIES | frozenset(GMP_REVIEW_CATEGORY_ALIASES)
abbrev pub category_names : List String
category_names = gmp_review_required_categories ++ keys gmp_review_category_aliases

-- A list of the names, in any order.
abbrev pub ListsNames : List String → Type 0
ListsNames known = (s : String) → contains known s ≡ contains category_names s

any_member :
    (p : String → Bool) (xs : List String) (s : String)
    → contains xs s ≡ true
    → p s ≡ true
    → any p xs ≡ true
unfolding any contains
any_member p [] s h e = cc
any_member p (x ∷ xs) s h e = elim (Bool-cases (x == s)) [
  | inl hit ↦ let same : x ≡ s = (eq_iff x s).0 hit in ground arith
  | inr miss ↦ let rest : any p xs ≡ true = any_member p xs s (ground arith) e in ground arith
]

member_of_any :
    (p : String → Bool) (xs : List String)
    → any p xs ≡ true
    → (s : String) × (contains xs s ≡ true) × (p s ≡ true)
unfolding any contains
member_of_any p [] h = cc
member_of_any p (x ∷ xs) h = elim (Bool-cases (p x)) [
  | inl yes' ↦ (x, ground (arith, eq_refl x), yes')
  | inr no' ↦ let r = member_of_any p xs (ground arith) in (r.0, ground arith, r.2)
]

any_same :
    (p : String → Bool) (xs ys : List String)
    → ((s : String) → contains xs s ≡ contains ys s)
    → any p xs ≡ true
    → any p ys ≡ true
any_same p xs ys same h =
    let r = member_of_any p xs h in any_member p ys r.0 (ground (arith, same r.0)) r.2

all_member :
    (p : String → Bool) (xs : List String) (s : String)
    → all p xs ≡ true
    → contains xs s ≡ true
    → p s ≡ true
unfolding all contains
all_member p [] s h e = cc
all_member p (x ∷ xs) s h e = elim (Bool-cases (x == s)) [
  | inl hit ↦ let same : x ≡ s = (eq_iff x s).0 hit in ground arith
  | inr miss ↦ all_member p xs s (ground arith) (ground arith)
]

abbrev target : String → String
target known = elim (Dict.get gmp_review_category_aliases known) [ none ↦ known | some t ↦ t ]

targets_required : all (λ k. is_review_required (target k)) category_names ≡ true
unfolding all contains is_review_required Dict.get
targets_required = refl

find_token_found :
    (known : List String) (text : String)
    → any (contains_category_token text) known ≡ true
    → ((s : String) → contains known s ≡ true → contains category_names s ≡ true)
    → (c : String) × (find_token known text ≡ some c) × (is_review_required c ≡ true)
unfolding find_token any contains
find_token_found [] text h names = cc
find_token_found (k ∷ known) text h names = elim (Bool-cases (contains_category_token text k)) [
  | inl hit ↦ (
    target k,
    ground arith,
    all_member (λ s. is_review_required (target s)) category_names k targets_required
        (names k (ground (arith, eq_refl k))),
  )
  | inr miss ↦
      let r = find_token_found known text (ground arith) (λ s h. names s (ground arith)) in
      (r.0, ground arith, r.2)
]

find_token_lost :
    (known : List String) (text : String)
    → any (contains_category_token text) known ≡ false
    → find_token known text ≡ none
unfolding find_token any
find_token_lost [] text h = refl
find_token_lost (k ∷ known) text h = ground (arith, find_token_lost known text)

find_token-found :
    (known : List String)
    → ListsNames known
    → (text : String) → any (contains_category_token text) category_names ≡ true
    → (c : String) × (find_token known text ≡ some c) × (is_review_required c ≡ true)
find_token-found known h text found =
    find_token_found known text (any_same _ category_names known (λ s. sym (h s)) found)
      (λ s e. ground (arith, h s))

find_token-lost :
    (known : List String)
    → ListsNames known
    → (text : String) → any (contains_category_token text) category_names ≡ false
    → find_token known text ≡ none
find_token-lost known h text lost = elim (Bool-cases (any (contains_category_token text) known)) [
  | inl hit ↦ let found = any_same (contains_category_token text) known category_names h hit in cc
  | inr miss ↦ find_token_lost known text miss
]

-- Both readings need a review, or they are the same text.
abbrev Agree : String → String → Type 0
Agree a b = ((is_review_required a ≡ true) × (is_review_required b ≡ true)) ⊎ (a ≡ b)

module _ (known known' : List String) (h : ListsNames known) (h' : ListsNames known') where
  by_token-Agree :
      (text : String)
      → Agree (by_token (find_token known text) text) (by_token (find_token known' text) text)
  unfolding by_token
  by_token-Agree text = elim (Bool-cases (any (contains_category_token text) category_names)) [
    | inl found ↦
        let a = find_token-found known h text found in
        let b = find_token-found known' h' text found in inl (ground arith, ground arith)
    | inr lost ↦
        inr (rw (find_token-lost known h text lost, find_token-lost known' h' text lost) refl)
  ]

  by_alias-Agree :
      (o : Option String) (text : String) → Agree (by_alias known o text) (by_alias known' o text)
  unfolding by_alias
  by_alias-Agree (some a) text = inr refl
  by_alias-Agree none text = elim (Bool-cases (contains gmp_review_required_categories text)) [
    | inl hit ↦ inr (ground arith)
    | inr miss ↦ rw miss (by_token-Agree text)
  ]

  category-Agree : (v : Value) → Agree (category_of known v) (category_of known' v)
  unfolding category_of normalized_category
  category-Agree (str s) = by_alias-Agree _ _
  category-Agree null = inr refl
  category-Agree (bool _) = inr refl
  category-Agree (int _) = inr refl
  category-Agree (float _) = inr refl
  category-Agree (bytes _) = inr refl
  category-Agree (list _) = inr refl
  category-Agree (tuple _) = inr refl
  category-Agree (dict _) = inr refl
  category-Agree (artifact _) = inr refl

  required_same :
      (v : Value)
      → is_review_required (category_of known v) ≡ is_review_required (category_of known' v)
  required_same v = elim (category-Agree v) [ inl both ↦ ground arith | inr same ↦ rw same refl ]

  gmp_same :
      (r : Fields) → gmp_category_requires_review known r ≡ gmp_category_requires_review known' r
  unfolding gmp_category_requires_review
  gmp_same r =
      rw
        (
          required_same (get r "gmp_review_category"),
          required_same (get r "field_category"),
          required_same (get r "field_id"),
          required_same (get r "label_id"),
          required_same (get r "label"),
        )
        refl

  explicit_same :
      (r : Fields)
      → has_malformed_explicit_gmp_category known r ≡ has_malformed_explicit_gmp_category known' r
  unfolding has_malformed_explicit_gmp_category
  explicit_same r = rw (required_same (get r "gmp_review_category")) refl

  module _ (expected actual : Fields) where
    important_same : item_important known expected actual ≡ item_important known' expected actual
    unfolding item_important
    important_same = rw (gmp_same expected, gmp_same actual) refl

    conditions_same :
        (evidence : Bool)
        → item_conditions known expected actual evidence
          ≡ item_conditions known' expected actual evidence
    unfolding item_conditions
    conditions_same evidence = rw important_same refl

    review_same :
        (evidence : Bool)
        → item_review known expected actual evidence ≡ item_review known' expected actual evidence
    unfolding item_review
    review_same evidence = rw (important_same, conditions_same evidence) refl

    failures_same :
        (evidence : Bool)
        → item_failures known expected actual evidence
          ≡ item_failures known' expected actual evidence
    unfolding item_failures
    failures_same evidence = rw (explicit_same expected, explicit_same actual) refl

    rules_same :
        (evidence : Bool)
        → item_rules known expected actual evidence ≡ item_rules known' expected actual evidence
    unfolding item_rules
    rules_same evidence = rw (failures_same evidence, important_same, review_same evidence) refl

    decision_same :
        (evidence : Bool)
        → item_decision known expected actual evidence
          ≡ item_decision known' expected actual evidence
    unfolding item_decision
    decision_same evidence =
        rw (rules_same evidence, review_same evidence, conditions_same evidence) refl

    -- For two lists of the known category names, in any order, an item is validated alike.
    pub validate_extracted_item-any_order :
        validate_extracted_item known expected actual
        ≡ validate_extracted_item known' expected actual
    unfolding validate_extracted_item
    validate_extracted_item-any_order =
        let yes' = decision_same true in let no' = decision_same false in ground arith
