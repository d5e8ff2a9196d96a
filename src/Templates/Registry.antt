-- ===== src/Templates/Registry.antt =====
-- The constructor of `TemplateVersionRegistry` (core/ir/template_versions.py), which accepts only
-- templates that it can select from. deepcopy is the identity on values.
use veri_doc.Prelude.{
  ℕ, suc, String, Bool, true, ◌||◌, not, List, [], ◌∷◌, Option, none, some, ◌==◌, if◌then◌else◌,
}
use Prim.Native.String.{◌++◌}
use veri_doc.Py.Decimal.{decimal}
use veri_doc.Prelude.Int.{ltb_ℤ}
use veri_doc.Prelude.Dict
use veri_doc.Prelude.Dict.{Dict, is_some}
use veri_doc.Py.Value.{Value, null, str, dict, Fields, get}
use veri_doc.Validate.Records.{is_hashable}
use veri_doc.Templates.Outcome.{
  TemplateError, Checked, passed, refused, ◌>>=◌, require, or_refuse, missing_string, bad_version,
  bad_status, bad_effective, bad_from, bad_until, bad_window, duplicate_version, python_error,
}
use veri_doc.Templates.Version.{version_key}
use veri_doc.Templates.Calendar.{Timestamp, instant}
use veri_doc.Templates.Timestamp.{parse_effective_timestamp}

-- The versions of each template id, in the order of their registration.
abbrev pub Versions : Type 0
Versions = Dict Fields

abbrev pub Registry : Type 0
Registry = Dict Versions

abbrev pub non_empty : Value → TemplateError → Checked String
non_empty (str s) e = if s == "" then refused e else passed s
non_empty _ e = refused e

-- `_required_string`
unfoldable pub required_string : Fields → String → ℕ → Checked String
required_string template key index = non_empty (get template key) (missing_string index key)

abbrev pub is_status : String → Bool
is_status s = s == "active" || s == "inactive"

abbrev pub status_check : Value → ℕ → Checked (Unit {0})
status_check (str s) index = require (is_status s) (bad_status index)
status_check v index = if is_hashable v then refused (bad_status index) else refused python_error

-- `_validate_status`. The test `in` a set hashes the status.
unfoldable pub validate_status : Fields → ℕ → Checked (Unit {0})
validate_status template index = status_check (get template "status") index

-- f"template[{index}].effective.{key}"
abbrev path_of : ℕ → String → String
path_of index key = ("template[" ++ decimal index) ++ ("].effective." ++ key)

-- The end of the window, `None` where there is none.
abbrev pub until_text : Value → TemplateError → Checked (Option String)
until_text null e = passed none
until_text (str s) e = if s == "" then refused e else passed (some s)
until_text _ e = refused e

abbrev pub parse_until : Option String → String → Checked (Option Timestamp)
parse_until none path = passed none
parse_until (some s) path = do t ← parse_effective_timestamp s path; passed (some t)

-- until is after from
unfoldable pub is_window : Timestamp → Option Timestamp → Bool
is_window start none = true
is_window start (some stop) = ltb_ℤ (instant start) (instant stop)

unfoldable pub window_check : Value → ℕ → Checked (Unit {0})
window_check (dict effective) index = do
  start_text ← non_empty (get effective "from") (bad_from index)
  stop_text ← until_text (get effective "until") (bad_until index)
  start ← parse_effective_timestamp start_text (path_of index "from")
  stop ← parse_until stop_text (path_of index "until")
  require (is_window start stop) (bad_window index)
window_check _ index = refused (bad_effective index)

-- `_validate_effective_metadata`
unfoldable pub validate_effective_metadata : Fields → ℕ → Checked (Unit {0})
validate_effective_metadata template index = window_check (get template "effective") index

abbrev pub or_empty : Option Versions → Versions
or_empty none = []
or_empty (some versions) = versions

-- One round of the loop.
unfoldable pub register : ℕ → Fields → Registry → Checked Registry
register index template registry = do
  template_id ← required_string template "template_id" index
  version ← required_string template "version" index
  key ← or_refuse (version_key version) (bad_version (some index))
  known_status ← validate_status template index
  window ← validate_effective_metadata template index
  let versions = or_empty (Dict.get registry template_id)
  fresh ←
      require (not (is_some (Dict.get versions version))) (duplicate_version template_id version)
  passed (Dict.put registry template_id (Dict.put versions version template))

unfoldable pub register_all : ℕ → List Fields → Registry → Checked Registry
register_all index [] registry = passed registry
register_all index (template ∷ templates) registry =
    register index template registry >>= register_all (suc index) templates

-- `TemplateVersionRegistry`
unfoldable pub template_version_registry : List Fields → Checked Registry
template_version_registry templates = register_all 0 templates []
