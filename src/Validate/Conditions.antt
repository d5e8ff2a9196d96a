-- ===== src/Validate/Conditions.antt =====
-- The conditions of extraction that core/validate/automatic.py asks a person to review.
use veri_doc.Prelude.{
  String, Bool, true, false, ◌&&◌, ◌||◌, not, List, [], ◌∷◌, ◌++◌, Option, none, some, ◌==◌,
  if◌then◌else◌,
}
use veri_doc.Prelude.Lists.{contains, any}
use text.Mathlib.Text.{starts_with}
use veri_doc.Py.Value.{Value, Fields, str, dict, field, has, get}
use veri_doc.Py.Text.{strip, casefold, ends_with, has_part}
use veri_doc.Validate.Categories.{slug}
use veri_doc.Validate.Records.{
  same_non_empty_string, evidence_matches, record_source_anchor, is_true,
}
use veri_doc.Validate.Decision.{unique}

-- re.sub(r"[^a-z0-9]+", "_", value.strip().casefold()).strip("_")
abbrev marker_of : String → String
marker_of value = slug (casefold (strip value))

-- `_source_marker_indicates_ocr`
unfoldable pub source_marker_indicates_ocr : String → Bool
source_marker_indicates_ocr value =
    let normalized = marker_of value in
    contains
      ("ocr" ∷ "optical_character_recognition" ∷ "pdf_ocr" ∷ "scanned_pdf" ∷ "scanned_pdf_ocr" ∷ [])
      normalized
    || ends_with normalized "_ocr"
    || starts_with normalized "ocr_"
    || has_part normalized "_ocr_"

-- `_engine_name_indicates_ocr`
unfoldable pub engine_name_indicates_ocr : String → Bool
engine_name_indicates_ocr value =
    source_marker_indicates_ocr value
    || has_part (marker_of value) "ocr"
    || has_part (marker_of value) "tesseract"

unfoldable pub name_of : Value → Option String
name_of (str name) = some name
name_of _ = none

unfoldable pub name_of_extractor : Value → Option String
name_of_extractor (str name) = some name
name_of_extractor (dict fs) = name_of (get fs "name")
name_of_extractor _ = none

unfoldable pub name_of_metadata : Value → Option String
name_of_metadata (dict fs) = name_of_extractor (get fs "extractor")
name_of_metadata _ = none

abbrev first_of : Option String → Option String → Option String
first_of (some a) b = some a
first_of none b = b

-- `_extractor_name`
unfoldable pub extractor_name : Fields → Option String
extractor_name r =
    first_of (name_of_extractor (get r "extractor")) (name_of_metadata (get r "value_metadata"))

abbrev text_is : (String → Bool) → Option String → Bool
text_is p none = false
text_is p (some s) = p s

-- `if extractor_name:` skips an empty name.
abbrev name_is : (String → Bool) → Option String → Bool
name_is p none = false
name_is p (some s) = not (s == "") && p s

-- `_ocr_derived`
unfoldable pub ocr_derived : Fields → Bool
ocr_derived r =
    any (λ key. text_is source_marker_indicates_ocr (name_of (get r key)))
      ("source_kind" ∷ "source_type" ∷ "extraction_method" ∷ "extractor_kind" ∷ [])
    || text_is engine_name_indicates_ocr (name_of (get r "engine"))
    || name_is engine_name_indicates_ocr (extractor_name r)

-- `_extraction_engine`
unfoldable pub extraction_engine : Fields → Option String
extraction_engine r = first_of (name_of (get r "extraction_engine")) (
    first_of (name_of (get r "extractor_engine"))
      (first_of (name_of (get r "engine")) (extractor_name r)))

unfoldable pub engines_differ : Option String → Option String → Bool
engines_differ none actual = false
engines_differ (some expected) none = true
engines_differ (some expected) (some actual) =
    not (same_non_empty_string (str expected) (str actual))

-- `_extraction_engine_mismatch`
unfoldable pub extraction_engine_mismatch : Fields → Fields → Bool
extraction_engine_mismatch expected actual =
    engines_differ (extraction_engine expected) (extraction_engine actual)

-- `_llm_involved`
unfoldable pub llm_involved : Fields → Bool
llm_involved r =
    is_true (get r "llm_involved")
    || is_true (get r "llm_generated")
    || text_is (λ name. has_part (marker_of name) "llm" || has_part (marker_of name) "gpt")
        (extractor_name r)

-- A message, where the condition holds.
abbrev pub given : Bool → String → List String
given c message = if c then message ∷ [] else []

-- `_gmp_condition_review_warnings`, once the evidence is compared
unfoldable pub condition_warnings : Fields → Fields → Bool → Bool → List String
condition_warnings expected actual important evidence = unique (
    given (ocr_derived expected || ocr_derived actual) "ocr-derived item requires human review"
    ++ given (extraction_engine_mismatch expected actual)
        "extraction engine mismatch requires human review"
    ++ given (not evidence) "item source requires human review"
    ++ given (important && (llm_involved expected || llm_involved actual))
        "llm-involved important item requires human review")

-- `_gmp_condition_review_warnings`
unfoldable pub gmp_condition_review_warnings : Fields → Fields → Bool → Option (List String)
gmp_condition_review_warnings expected actual important =
    elim (evidence_matches (record_source_anchor expected) (record_source_anchor actual)) [
      | none ↦ none
      | some evidence ↦ some (condition_warnings expected actual important evidence)
    ]

-- The entries of the table under the keys that the cell has not.
inherited : Fields → Fields → List String → Fields → Fields
inherited table cell [] rest = rest
inherited table cell (key ∷ keys) rest =
    let more = inherited table cell keys rest in
    if has table key && not (has cell key) then field key (get table key) more else more

-- `_with_inherited_condition_metadata`: the table's entries stand before the cell's own.
unfoldable pub with_inherited_condition_metadata : Fields → Fields → Fields
unfolding inherited
with_inherited_condition_metadata table cell =
    inherited table cell
      ("source_kind" ∷ "source_type" ∷ "extraction_method" ∷ "extractor_kind" ∷ "engine"
        ∷ "extraction_engine" ∷ "extractor_engine" ∷ "extractor" ∷ "llm_involved" ∷ "llm_generated"
        ∷ [])
      cell
