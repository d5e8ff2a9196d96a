-- ===== src/Templates/Tests.antt =====
-- Runs of the template registry (core/ir/template_versions.py).
use veri_doc.Prelude.{String, ◌≡◌, refl, true, false, [], ◌∷◌, none, some}
use veri_doc.Prelude.Int.{◌+ℤ◌, ◌-ℤ◌}
use veri_doc.Prelude.Dict
use veri_doc.Py.Decimal.{decimal}
use veri_doc.Py.Value.{Value, str, list, nil, dict, field, end, Fields, get, get_field?}
use veri_doc.Validate.Records.{is_hashable}
use veri_doc.Templates.Outcome.{passed, refused, python_error, not_effective}
use veri_doc.Templates.Version.{
  codes, digits, numeral, dot, at_end, read_version, version_key, version_lt,
}
use veri_doc.Templates.Unique.{version_key-injective}
use veri_doc.Templates.Calendar.{
  Timestamp, days_in_month, is_moment, days_before_year, days_before_month, ordinal, local, instant,
}
use veri_doc.Templates.Written.{parse_effective_timestamp-written}
use veri_doc.Templates.Timestamp.{
  take_digits, take_char, take_fraction, read_fraction, read_offset, read_zone, read_timestamp,
  accept_moment, parse_effective_timestamp,
}
use veri_doc.Templates.Registry.{
  Registry, required_string, validate_status, is_window, window_check, validate_effective_metadata,
  register, register_all, template_version_registry,
}
use veri_doc.Templates.Select.{
  selection_time, stops_after, is_effective_at, is_active, is_candidate, candidates, key_of,
  highest_from, highest, select_active, get_version, selection_metadata,
}
use veri_doc.Templates.Select.Served.{Selects, select_active-Selects, get_version-select_active}

-- Opening this opens the registry.
runs : Unit {0}
unfolding Dict.get Dict.put decimal get get_field? is_hashable codes digits numeral dot at_end
    read_version version_key version_lt days_in_month is_moment days_before_year days_before_month
    ordinal local instant ◌+ℤ◌ ◌-ℤ◌ take_digits take_char take_fraction read_fraction read_offset
    read_zone read_timestamp accept_moment parse_effective_timestamp required_string validate_status
    is_window window_check validate_effective_metadata register register_all
    template_version_registry selection_time stops_after is_effective_at is_active is_candidate
    candidates key_of highest_from highest select_active get_version selection_metadata
runs = tt

abbrev window : String → Value → Fields
window start stop = field "from" (str start) (field "until" stop end)

abbrev template_of : String → String → Fields → Fields
template_of version status effective = field "template_id" (str "batch") (
    field "version" (str version)
      (field "status" (str status) (field "effective" (dict effective) end)))

abbrev old_template : Fields
old_template =
    template_of "1.0.0" "active"
      (window "2026-01-01T00:00:00+09:00" (str "2026-01-01T02:00:00+09:00"))

abbrev new_template : Fields
new_template = template_of "2.0.0" "active" (field "from" (str "2026-01-01T00:00:00Z") end)

abbrev registry : Registry
registry = ("batch", ("1.0.0", old_template) ∷ ("2.0.0", new_template) ∷ []) ∷ []

built : template_version_registry (old_template ∷ new_template ∷ []) ≡ passed registry
unfolding runs
built = refl

abbrev now : Timestamp
now = record {
  year = 2026;
  month = 6;
  day = 1;
  hour = 0;
  minute = 0;
  second = 0;
  microsecond = 0;
  behind = false;
  offset = 0;
}

-- The window is compared in UTC.
selects_old : select_active registry now "batch" (some "2025-12-31T16:00:00Z") ≡ passed old_template
unfolding runs
selects_old = refl

refuses_old :
    get_version registry now "batch" "1.0.0" false (some "2025-12-31T17:00:00Z")
    ≡ refused (not_effective "batch" "1.0.0")
unfolding runs
refuses_old = refl

-- A status that cannot be hashed is no TemplateVersionError.
unhashable_status :
    template_version_registry (
      field "template_id"
        (str "batch")
        (field "version" (str "1.0.0") (field "status" (list nil) end))
      ∷ [])
    ≡ refused python_error
unfolding runs
unhashable_status = refl

leading_zero : version_key "1.02.0" ≡ none
unfolding runs
leading_zero = refl

select_active-Selects_example :
    Selects "batch"
      (("1.0.0", old_template) ∷ ("2.0.0", new_template) ∷ [])
      now
      (select_active registry now "batch" none)
unfolding runs
select_active-Selects_example =
    select_active-Selects (old_template ∷ new_template ∷ []) registry built now "batch" none _ now
      refl refl

get_version-select_active_example :
    (version : String) × (get_version registry now "batch" version false none ≡ passed new_template)
unfolding runs
get_version-select_active_example =
    get_version-select_active (old_template ∷ new_template ∷ []) registry built now "batch" none
      new_template refl

version_key-injective_example : ◌≡◌ {A = String} "10.2.0" "10.2.0"
unfolding runs
version_key-injective_example =
    version_key-injective "10.2.0" "10.2.0" (record { major = 10; minor = 2; patch = 0 }) refl refl

abbrev evening : Timestamp
evening = record {
  year = 2024;
  month = 2;
  day = 29;
  hour = 23;
  minute = 59;
  second = 59;
  microsecond = 500000;
  behind = true;
  offset = 330;
}

parse_effective_timestamp-written_example :
    parse_effective_timestamp "2024-02-29T23:59:59.500000-05:30" "as_of" ≡ passed evening
unfolding runs
parse_effective_timestamp-written_example =
    parse_effective_timestamp-written evening refl "2024-02-29T23:59:59.500000-05:30" "as_of" refl
