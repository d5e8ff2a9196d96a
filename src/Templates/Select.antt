-- ===== src/Templates/Select.antt =====
-- The methods of `TemplateVersionRegistry` (core/ir/template_versions.py). `now` is the reading of
-- the clock, in UTC.
pub mod WellFormed
pub mod Highest
pub mod Candidates
pub mod Served
use veri_doc.Prelude.{
  ℕ, String, Bool, true, false, ◌&&◌, ◌||◌, not, List, [], ◌∷◌, Option, none, some, ◌==◌,
  if◌then◌else◌,
}
use veri_doc.Prelude.Int.{ltb_ℤ, leb_ℤ}
use veri_doc.Prelude.Dict
use veri_doc.Prelude.Dict.{Dict}
use veri_doc.Py.Value.{Value, str, dict, field, end, Fields, get, get_field?}
use veri_doc.Templates.Outcome.{
  Checked, passed, refused, ◌>>=◌, require, or_refuse, bad_version, unregistered, no_active_version,
  unregistered_version, inactive_version, not_effective, python_error,
}
use veri_doc.Templates.Version.{Version, version_key, version_lt}
use veri_doc.Templates.Calendar.{Timestamp, instant}
use veri_doc.Templates.Timestamp.{parse_effective_timestamp}
use veri_doc.Templates.Registry.{Versions, Registry}

-- `_selection_time`
unfoldable pub selection_time : Timestamp → Option String → Checked Timestamp
selection_time now none = passed now
selection_time now (some as_of) = parse_effective_timestamp as_of "as_of"

-- A missing or other value where the constructor has seen a text is an error of Python.
abbrev pub text_at : Option Value → Checked String
text_at (some (str s)) = passed s
text_at _ = refused python_error

abbrev pub fields_at : Option Value → Checked Fields
fields_at (some (dict fs)) = passed fs
fields_at _ = refused python_error

unfoldable pub stops_after : Value → Timestamp → Checked Bool
stops_after (str s) as_of = do
  stop ← parse_effective_timestamp s "effective.until"
  passed (ltb_ℤ (instant as_of) (instant stop))
stops_after _ as_of = passed true

-- `_is_effective_at`
unfoldable pub is_effective_at : Fields → Timestamp → Checked Bool
is_effective_at template as_of = do
  effective ← fields_at (get_field? template "effective")
  start_text ← text_at (get_field? effective "from")
  start ← parse_effective_timestamp start_text "effective.from"
  in_time ← stops_after (get effective "until") as_of
  passed (leb_ℤ (instant start) (instant as_of) && in_time)

abbrev pub is_text : Value → String → Bool
is_text (str s) t = s == t
is_text _ t = false

unfoldable pub is_active : Fields → Bool
is_active template = is_text (get template "status") "active"

-- The condition of the selection.
unfoldable pub is_candidate : Fields → Timestamp → Checked Bool
is_candidate template as_of = elim (is_active template) [
  | true ↦ is_effective_at template as_of
  | false ↦ passed false
]

abbrev pub keep_if : Bool → Fields → List Fields → List Fields
keep_if true t ts = t ∷ ts
keep_if false t ts = ts

unfoldable pub candidates : Versions → Timestamp → Checked (List Fields)
candidates [] as_of = passed []
candidates ((_, template) ∷ versions) as_of = do
  kept ← is_candidate template as_of
  rest ← candidates versions as_of
  passed (keep_if kept template rest)

-- The key by which `max` compares.
unfoldable pub key_of : Fields → Checked Version
key_of template = do
  version ← text_at (get_field? template "version")
  or_refuse (version_key version) (bad_version none)

-- max(templates, key=...): of equal keys the first stays.
unfoldable pub highest_from : Version → Fields → List Fields → Checked Fields
highest_from key best [] = passed best
highest_from key best (t ∷ ts) = do
  other ← key_of t
  let stays = highest_from key best ts
  let yields = highest_from other t ts
  if version_lt key other then yields else stays

unfoldable pub highest : String → List Fields → Checked Fields
highest template_id [] = refused (no_active_version template_id)
highest template_id (t ∷ ts) = do key ← key_of t; highest_from key t ts

-- `select_active`
unfoldable pub select_active : Registry → Timestamp → String → Option String → Checked Fields
select_active registry now template_id as_of = do
  versions ← or_refuse (Dict.get registry template_id) (unregistered template_id)
  selected_at ← selection_time now as_of
  active_versions ← candidates versions selected_at
  highest template_id active_versions

abbrev pub version_at : Option Versions → String → Option Fields
version_at none version = none
version_at (some versions) version = Dict.get versions version

-- `get_version`
unfoldable pub get_version :
    Registry → Timestamp → String → String → Bool → Option String → Checked Fields
get_version registry now template_id version include_inactive as_of = do
  template ←
      or_refuse (version_at (Dict.get registry template_id) version)
        (unregistered_version template_id version)
  allowed ← require (is_active template || include_inactive) (inactive_version template_id version)
  selected_at ← selection_time now as_of
  in_time ← is_effective_at template selected_at
  effective ← require in_time (not_effective template_id version)
  passed template

-- `selection_metadata`
unfoldable pub selection_metadata : Registry → Timestamp → String → Option String → Checked Fields
selection_metadata registry now template_id as_of = do
  selected ← select_active registry now template_id as_of
  id ← text_at (get_field? selected "template_id")
  version ← text_at (get_field? selected "version")
  status ← text_at (get_field? selected "status")
  passed (
      field "template_id" (str id) (
        field "version" (str version)
          (field "status" (str status) (field "selected_by" (str "highest_active_version") end))))
