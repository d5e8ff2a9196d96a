-- ===== src/Validate/Categories.antt =====
-- The GMP review categories of core/validate/automatic.py and the reading of free text as one.
use Prim.Native.Char.{Char, code, char}
use Prim.Native.String.{◌++◌}
use veri_doc.Prelude.{
  String, ◌≡◌, refl, Bool, true, false, ◌&&◌, ◌||◌, List, [], ◌∷◌, Option, none, some, ◌==◌, nat_eq,
  if◌then◌else◌,
}
use veri_doc.Prelude.Dict
use veri_doc.Prelude.Dict.{Dict}
use veri_doc.Prelude.Lists.{contains}
use text.Mathlib.Text.{starts_with}
use veri_doc.Py.Text.{strip, casefold, between, ends_with, has_part}

-- GMP_REVIEW_REQUIRED_CATEGORIES
abbrev pub gmp_review_required_categories : List String
gmp_review_required_categories =
    "lot_number" ∷ "item" ∷ "date_time" ∷ "numeric_value" ∷ "specification" ∷ "judgment" ∷ "person"
    ∷ "correction" ∷ "deviation" ∷ []

-- `same target names` reads each of the names as the target.
abbrev same : String → List String → Dict String → Dict String
same target [] rest = rest
same target (name ∷ names) rest = (name, target) ∷ same target names rest

-- GMP_REVIEW_CATEGORY_ALIASES
abbrev pub gmp_review_category_aliases : Dict String
gmp_review_category_aliases =
    same "lot_number"
      ("batch_id" ∷ "batch_lot_id" ∷ "batch_lot_no" ∷ "batch_lot_number" ∷ "batch_number"
        ∷ "batch_no" ∷ "lot" ∷ "lot_id" ∷ "lot_identifier" ∷ "lot_no" ∷ "lot_number" ∷ [])
      (same "item" ("product" ∷ "material" ∷ "component" ∷ []) (
        same "date_time"
          ("date" ∷ "approval_date" ∷ "approved_at" ∷ "collection_date" ∷ "effective_date"
            ∷ "expiration_date" ∷ "expiry_date" ∷ "manufacture_date" ∷ "manufactured_at"
            ∷ "manufacturing_date" ∷ "mfg_date" ∷ "production_date" ∷ "review_date" ∷ "reviewed_at"
            ∷ "sample_date" ∷ "test_date" ∷ "time" ∷ "timestamp" ∷ "datetime" ∷ [])
          (same "numeric_value"
            ("quantity" ∷ "measurement" ∷ "number" ∷ "actual_yield" ∷ "expected_yield"
              ∷ "target_yield" ∷ "yield" ∷ [])
            (same "specification" ("limit" ∷ "standard" ∷ "acceptance_criteria" ∷ []) (
              same "judgment"
                ("result" ∷ "decision" ∷ "disposition" ∷ "status" ∷ "release_status" ∷ [])
                (same "person"
                  ("operator" ∷ "reviewer" ∷ "approver" ∷ "approved_by" ∷ "checked_by"
                    ∷ "performed_by" ∷ "prepared_by" ∷ "reviewed_by" ∷ "signature" ∷ "signed_by"
                    ∷ "verified_by" ∷ [])
                  (same "correction" ("change" ∷ "amendment" ∷ [])
                    (same "deviation" ("nonconformance" ∷ "oos" ∷ []) []))))))))

abbrev underscore : Char
underscore = char 95 tt

-- [a-z0-9]
abbrev is_word : Char → Bool
is_word c = between 97 122 (code c) || between 48 57 (code c)

abbrev is_upper : Char → Bool
is_upper c = between 65 90 (code c)

-- re.sub(r"(?<=[a-z0-9])(?=[A-Z])", "_", text): `after` says whether a character of [a-z0-9] is
-- just before the text.
split_camel : Bool → String → String
split_camel after String.[] = String.[]
split_camel after (String.◌∷◌ c s) =
    let rest = String.◌∷◌ c (split_camel (is_word c) s) in
    if after && is_upper c then String.◌∷◌ underscore rest else rest

-- re.sub(r"[^a-z0-9]+", "_", text): `inside` says whether the run has its "_" already.
join_words : Bool → String → String
join_words inside String.[] = String.[]
join_words inside (String.◌∷◌ c s) =
    let word = String.◌∷◌ c (join_words false s) in
    let more = join_words true s in
    if is_word c then word else if inside then more else String.◌∷◌ underscore more

drop_underscores : String → String
drop_underscores String.[] = String.[]
drop_underscores (String.◌∷◌ c s) =
    if nat_eq (code c) 95 then drop_underscores s else String.◌∷◌ c s

abbrev unless : Bool → String → String
unless true r = String.[]
unless false r = r

drop_last_underscores : String → String
drop_last_underscores String.[] = String.[]
drop_last_underscores (String.◌∷◌ c s) =
    let r = drop_last_underscores s in unless (nat_eq (code c) 95 && r == "") (String.◌∷◌ c r)

-- re.sub(r"[^a-z0-9]+", "_", text).strip("_")
unfoldable pub slug : String → String
unfolding join_words drop_underscores drop_last_underscores
slug s = drop_last_underscores (drop_underscores (join_words false s))

-- `_contains_category_token`
unfoldable pub contains_category_token : String → String → Bool
unfolding ends_with has_part
contains_category_token normalized category =
    starts_with normalized (category ++ "_")
    || ends_with normalized ("_" ++ category)
    || has_part normalized ("_" ++ category ++ "_")

or_self : String → Option String → String
or_self known none = known
or_self known (some target) = target

-- The loop of `_normalized_category` over the known categories.
unfoldable pub find_token : List String → String → Option String
unfolding or_self
find_token [] normalized = none
find_token (known ∷ rest) normalized =
    if contains_category_token normalized known
    then some (or_self known (Dict.get gmp_review_category_aliases known))
    else find_token rest normalized

unfoldable pub date_or_self : String → String
date_or_self normalized =
    if ends_with normalized "_date"
      || ends_with normalized "_time"
      || ends_with normalized "_timestamp"
      || ends_with normalized "_datetime"
    then "date_time"
    else normalized

unfoldable pub by_token : Option String → String → String
by_token (some category) normalized = category
by_token none normalized = date_or_self normalized

unfoldable pub by_alias : List String → Option String → String → String
by_alias known (some alias) normalized = alias
by_alias known none normalized =
    if contains gmp_review_required_categories normalized
    then normalized
    else by_token (find_token known normalized) normalized

-- `_normalized_category` of a text. `known` lists the required categories and the aliases by
-- falling length: Python leaves open how it orders those of one length. The loop that halves "__"
-- finds none, since each run of other characters has become one "_".
unfoldable pub normalized_category : List String → String → String
unfolding split_camel
normalized_category known text =
    let normalized = slug (casefold (split_camel false (strip text))) in
    by_alias known (Dict.get gmp_review_category_aliases normalized) normalized

underlined : String → String
underlined String.[] = String.[]
underlined (String.◌∷◌ c s) =
    let rest = underlined s in
    String.◌∷◌ (if nat_eq (code c) 45 || nat_eq (code c) 32 then underscore else c) rest

-- `_category_from_value_type` of a text.
unfoldable pub category_from_value_type : String → String
unfolding underlined
category_from_value_type text =
    let normalized = underlined (casefold (strip text)) in
    if contains ("number" ∷ "numeric" ∷ "integer" ∷ "int" ∷ "float" ∷ "decimal" ∷ []) normalized
    then "numeric_value"
    else if contains ("date" ∷ "datetime" ∷ "time" ∷ "timestamp" ∷ []) normalized
    then "date_time"
    else ""

-- `category in GMP_REVIEW_REQUIRED_CATEGORIES`
unfoldable pub is_review_required : String → Bool
is_review_required = contains gmp_review_required_categories

camel : normalized_category [] "  LotNumber " ≡ "lot_number"
unfolding normalized_category slug by_alias strip casefold Dict.get
camel = refl

token : normalized_category ("result" ∷ []) "Final-result (QA)" ≡ "judgment"
unfolding normalized_category slug by_alias by_token find_token contains_category_token strip
    casefold Dict.get contains
token = refl
