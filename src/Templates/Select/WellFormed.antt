-- ===== src/Templates/Select/WellFormed.antt =====
-- What the constructor of `TemplateVersionRegistry` (core/ir/template_versions.py) has checked of the
-- templates that its methods read.
use veri_doc.Prelude.{
  ℕ, suc, String, Bool, true, ◌&&◌, not, List, [], ◌∷◌, Option, none, some, ◌==◌, ◌≡◌, refl, sym,
  ◌∙◌, ap, eq_iff, arith, Option-cases, Bool-cases, inl, inr,
}
use veri_doc.Prelude.Int.{ltb_ℤ, leb_ℤ}
use veri_doc.Prelude.Dict
use veri_doc.Prelude.Dict.{Dict, is_some, get-put, get-empty, Distinct, Distinct-put}
use veri_doc.Py.Value.{
  Value, null, bool, int, float, str, bytes, list, tuple, dict, artifact, Fields, get, get_field?,
}
use veri_doc.Templates.Outcome.{
  TemplateError, Checked, passed, refused, ◌>>=◌, or_refuse, require, duplicate_version,
}
use veri_doc.Templates.Version.{Version, version_key}
use veri_doc.Templates.Calendar.{Timestamp, instant}
use veri_doc.Templates.Timestamp.{parse_effective_timestamp}
use veri_doc.Templates.Registry.{
  Versions, Registry, non_empty, required_string, until_text, parse_until, window_check,
  validate_status, validate_effective_metadata, register, register_all, template_version_registry,
  or_empty,
}
use veri_doc.Templates.Select.{stops_after, is_effective_at, key_of}

pub bind-passed :
    {A B : Type 0} (m : Checked A) (f : A → Checked B) (b : B)
    → (m >>= f) ≡ passed b
    → (a : A) × (m ≡ passed a) × (f a ≡ passed b)
bind-passed (passed a) f b e = (a, refl, e)
bind-passed (refused x) f b e = ground arith

pub or_refuse-passed :
    {A : Type 0} (o : Option A) (x : TemplateError) (a : A) → or_refuse o x ≡ passed a → o ≡ some a
or_refuse-passed none x a e = ground arith
or_refuse-passed (some b) x a e = ground arith

-- A template of the registry can be compared by its version and its window.
abbrev pub IsEntry : String → Fields → Type 0
IsEntry version template =
    (key : Version) × (version_key version ≡ some key)
    × (key_of template ≡ passed key)
    × ((as_of : Timestamp) → (b : Bool) × (is_effective_at template as_of ≡ passed b))

abbrev pub AllEntries : Versions → Type 0
AllEntries versions =
    Distinct versions
    × ((version : String) (template : Fields)
        → Dict.get versions version ≡ some template
        → IsEntry version template)

abbrev pub IsReadable : Registry → Type 0
IsReadable registry =
    (id : String) (versions : Versions) → Dict.get registry id ≡ some versions → AllEntries versions

-- The path stands in the message alone.
parse-path :
    (s p p' : String) (t : Timestamp)
    → parse_effective_timestamp s p ≡ passed t
    → parse_effective_timestamp s p' ≡ passed t
unfolding parse_effective_timestamp
parse-path s p p' t e = rw (or_refuse-passed _ _ t e) refl

non_empty-text : (v : Value) (x : TemplateError) (s : String) → non_empty v x ≡ passed s → v ≡ str s
non_empty-text (str t) x s e = ground arith
non_empty-text null x s e = ground arith
non_empty-text (bool b) x s e = ground arith
non_empty-text (int n) x s e = ground arith
non_empty-text (float n) x s e = ground arith
non_empty-text (bytes b) x s e = ground arith
non_empty-text (list b) x s e = ground arith
non_empty-text (tuple b) x s e = ground arith
non_empty-text (dict b) x s e = ground arith
non_empty-text (artifact b) x s e = ground arith

-- A field that is not null is there.
get-get_field? :
    (fs : Fields) (k : String) (v : Value)
    → get fs k ≡ v
    → (v ≡ null → ⊥)
    → get_field? fs k ≡ some v
unfolding get
get-get_field? fs k v e there = elim (Option-cases (get_field? fs k)) [
  | inl lost ↦ absurd (there (ground arith))
  | inr (w, found) ↦ ground arith
]

str_not_null : (s : String) → str s ≡ null → ⊥
str_not_null s e = ground arith

stops_after-readable :
    (v : Value) (x : TemplateError) (o : Option String) (p : String) (stop : Option Timestamp)
    → until_text v x ≡ passed o
    → parse_until o p ≡ passed stop
    → (as_of : Timestamp) → (b : Bool) × (stops_after v as_of ≡ passed b)
unfolding stops_after
stops_after-readable null x o p stop e f as_of = (true, refl)
stops_after-readable (str s) x o p stop e f as_of = elim (Bool-cases (s == "")) [
  | inl blank ↦ ground arith
  | inr text ↦
      let whole : o ≡ some s = ground arith in
      let parsed : parse_until (some s) p ≡ passed stop =
        ap (λ y. parse_until y p) (sym whole) ∙ f in
      let (t, read, last) = bind-passed (parse_effective_timestamp s p) _ stop parsed in
      (ltb_ℤ (instant as_of) (instant t), rw (parse-path s p "effective.until" t read) refl)
]
stops_after-readable (bool b) x o p stop e f as_of = (true, refl)
stops_after-readable (int b) x o p stop e f as_of = (true, refl)
stops_after-readable (float b) x o p stop e f as_of = (true, refl)
stops_after-readable (bytes b) x o p stop e f as_of = (true, refl)
stops_after-readable (list b) x o p stop e f as_of = (true, refl)
stops_after-readable (tuple b) x o p stop e f as_of = (true, refl)
stops_after-readable (dict b) x o p stop e f as_of = (true, refl)
stops_after-readable (artifact b) x o p stop e f as_of = (true, refl)

window-readable :
    (template : Fields) (v : Value) (index : ℕ) (u : Unit {0})
    → get template "effective" ≡ v
    → window_check v index ≡ passed u
    → (as_of : Timestamp) → (b : Bool) × (is_effective_at template as_of ≡ passed b)
unfolding window_check is_effective_at
window-readable template (dict effective) index u at e as_of =
    let (start_text, text, e1) = bind-passed (non_empty (get effective "from") _) _ u e in
    let (stop_text, until, e2) = bind-passed (until_text (get effective "until") _) _ u e1 in
    let (start, started, e3) = bind-passed (parse_effective_timestamp start_text _) _ u e2 in
    let (stop, stopped, e4) = bind-passed (parse_until stop_text _) _ u e3 in
    let there = get-get_field? template "effective" (dict effective) at (λ n. ground arith) in
    let from =
      get-get_field? effective "from" (str start_text)
        (non_empty-text (get effective "from") _ start_text text) (str_not_null start_text) in
    let (b, stops) =
      stops_after-readable (get effective "until") _ stop_text _ stop until stopped as_of in
    (
      leb_ℤ (instant start) (instant as_of) && b,
      rw (there, from, parse-path start_text _ "effective.from" start started, stops) refl,
    )
window-readable template null index u at e as_of = ground arith
window-readable template (bool b) index u at e as_of = ground arith
window-readable template (int b) index u at e as_of = ground arith
window-readable template (float b) index u at e as_of = ground arith
window-readable template (str b) index u at e as_of = ground arith
window-readable template (bytes b) index u at e as_of = ground arith
window-readable template (list b) index u at e as_of = ground arith
window-readable template (tuple b) index u at e as_of = ground arith
window-readable template (artifact b) index u at e as_of = ground arith

key_of-version :
    (template : Fields) (version : String) (key : Version)
    → get_field? template "version" ≡ some (str version)
    → version_key version ≡ some key
    → key_of template ≡ passed key
unfolding key_of
key_of-version template version key there reads = rw (there, reads) refl

no_versions : AllEntries []
no_versions = (tt, λ version template found. ground (arith, get-empty {V = Fields} version))

-- The versions of an id that the registry has, or none.
or_empty-AllEntries :
    (o : Option Versions)
    → ((versions : Versions) → o ≡ some versions → AllEntries versions)
    → AllEntries (or_empty o)
or_empty-AllEntries none h = no_versions
or_empty-AllEntries (some versions) h = h versions refl

AllEntries-put :
    (versions : Versions) (version : String) (template : Fields)
    → AllEntries versions
    → IsEntry version template
    → AllEntries (Dict.put versions version template)
AllEntries-put versions version template all entry = (
  Distinct-put versions version template all.0,
  λ v t found. elim (Bool-cases (version == v)) [
    | inl hit ↦
        let same : version ≡ v = (eq_iff version v).0 hit in
        let it : template ≡ t = ground (arith, get-put versions version v template) in
        rw (← same, ← it) entry
    | inr miss ↦ all.1 v t (ground (arith, get-put versions version v template))
  ],
)

put-IsReadable :
    (registry registry' : Registry) (id : String) (versions : Versions)
    → IsReadable registry
    → AllEntries versions
    → passed (Dict.put registry id versions) ≡ passed registry'
    → IsReadable registry'
put-IsReadable registry registry' id versions h all e k vs found =
    let same : Dict.put registry id versions ≡ registry' = ground arith in
    let found' : Dict.get (Dict.put registry id versions) k ≡ some vs = rw same found in
    elim (Bool-cases (id == k)) [
      | inl hit ↦
          let it : versions ≡ vs = ground (arith, get-put registry id k versions) in rw (← it) all
      | inr miss ↦ h k vs (ground (arith, get-put registry id k versions))
    ]

register-IsReadable :
    (index : ℕ) (template : Fields) (registry registry' : Registry)
    → IsReadable registry
    → register index template registry ≡ passed registry'
    → IsReadable registry'
unfolding register required_string validate_effective_metadata
register-IsReadable index template registry registry' h e =
    let (id, named, e1) =
      bind-passed (required_string template "template_id" index) _ registry' e in
    let (version, text, e2) =
      bind-passed (required_string template "version" index) _ registry' e1 in
    let (key, reads, e3) = bind-passed (or_refuse (version_key version) _) _ registry' e2 in
    let (u1, status, e4) = bind-passed (validate_status template index) _ registry' e3 in
    let (u2, window, e5) =
      bind-passed (validate_effective_metadata template index) _ registry' e4 in
    let (u3, fresh, e6) =
      bind-passed
        (require (not (is_some (Dict.get (or_empty (Dict.get registry id)) version)))
          (duplicate_version id version))
        _ registry' e5 in
    let number = or_refuse-passed (version_key version) _ key reads in
    let there =
      get-get_field? template "version" (str version)
        (non_empty-text (get template "version") _ version text) (str_not_null version) in
    let entry : IsEntry version template = (
      key,
      number,
      key_of-version template version key there number,
      window-readable template (get template "effective") index u2 refl window,
    ) in
    let versions = or_empty (Dict.get registry id) in
    let all =
      AllEntries-put versions version template
        (or_empty-AllEntries (Dict.get registry id) (λ vs found. h id vs found)) entry in
    put-IsReadable registry registry' id (Dict.put versions version template) h all e6

register_all-IsReadable :
    (index : ℕ) (templates : List Fields) (registry registry' : Registry)
    → IsReadable registry
    → register_all index templates registry ≡ passed registry'
    → IsReadable registry'
unfolding register_all
register_all-IsReadable index [] registry registry' h e =
    let same : registry ≡ registry' = ground arith in rw (← same) h
register_all-IsReadable index (t ∷ ts) registry registry' h e =
    let (r, first, rest) = bind-passed (register index t registry) _ registry' e in
    register_all-IsReadable (suc index) ts r registry'
      (register-IsReadable index t registry r h first) rest

-- What the constructor accepts, the methods can read.
pub template_version_registry-IsReadable :
    (templates : List Fields) (registry : Registry)
    → template_version_registry templates ≡ passed registry
    → IsReadable registry
unfolding template_version_registry
template_version_registry-IsReadable templates registry e =
    register_all-IsReadable 0 templates [] registry
      (λ id versions found. ground (arith, get-empty {V = Versions} id)) e
