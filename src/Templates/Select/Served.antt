-- ===== src/Templates/Select/Served.antt =====
-- What `select_active` and `get_version` of core/ir/template_versions.py hand out.
use mathlib.Core.List.{Memᴰ}
use veri_doc.Prelude.{
  String, true, false, List, [], ◌∷◌, Option, none, some, ◌≡◌, refl, sym, ◌∙◌, ap, arith,
  Bool-cases, inl, inr, ◌⊎◌,
}
use veri_doc.Prelude.Dict
use veri_doc.Prelude.Dict.{Dict}
use veri_doc.Py.Value.{Fields}
use veri_doc.Templates.Outcome.{
  Checked, passed, refused, or_refuse, unregistered, no_active_version,
}
use veri_doc.Templates.Version.{Version, version_key, version_lt}
use veri_doc.Templates.Unique.{version_key-injective}
use veri_doc.Templates.Calendar.{Timestamp}
use veri_doc.Templates.Registry.{Versions, Registry, template_version_registry}
use veri_doc.Templates.Select.{
  selection_time, is_effective_at, is_active, is_candidate, key_of, highest, select_active,
  get_version,
}
use veri_doc.Templates.Select.WellFormed.{
  bind-passed, or_refuse-passed, AllEntries, template_version_registry-IsReadable,
}
use veri_doc.Templates.Select.Highest.{IsBound, highest-IsTop}
use veri_doc.Templates.Select.Candidates.{IsCandidate, Picks, candidates-Picks}

-- Active, and in its window.
abbrev pub IsInForce : Fields → Timestamp → Type 0
IsInForce t as_of = (is_active t ≡ true) × (is_effective_at t as_of ≡ passed true)

IsCandidate-IsInForce : (t : Fields) (as_of : Timestamp) → IsCandidate t as_of → IsInForce t as_of
unfolding is_candidate
IsCandidate-IsInForce t as_of c = elim (Bool-cases (is_active t)) [
  | inl yes' ↦ (yes', sym (rw (is_candidate, yes') refl) ∙ c)
  | inr no' ↦
      let out : passed false ≡ passed true = sym (rw (is_candidate, no') refl) ∙ c in ground arith
]

IsInForce-IsCandidate : (t : Fields) (as_of : Timestamp) → IsInForce t as_of → IsCandidate t as_of
unfolding is_candidate
IsInForce-IsCandidate t as_of (active, in_time) = rw (is_candidate, active) in_time

same_numbers : (u v : Version) → u.major ≡ v.major → u.minor ≡ v.minor → u.patch ≡ v.patch → u ≡ v
same_numbers u v a b c i = record { major = a i; minor = b i; patch = c i }

or_key : Option Version → Version → Version
or_key none k = k
or_key (some k) _ = k

version_lt_total : (u v : Version) → version_lt u v ≡ false → (u ≡ v → ⊥) → version_lt v u ≡ true
unfolding version_lt
version_lt_total u v a other = elim (Bool-cases (version_lt v u)) [
  | inl higher ↦ higher
  | inr equal ↦ absurd (other (same_numbers u v (ground arith) (ground arith) (ground arith)))
]

-- The registered template of the highest version in force.
abbrev pub IsSelected : Versions → Timestamp → Fields → Type 0
IsSelected versions as_of t =
    (version : String) × (key : Version) × (Dict.get versions version ≡ some t)
    × (version_key version ≡ some key)
    × IsInForce t as_of
    × ((other : String) (x : Fields) (k : Version)
        → Dict.get versions other ≡ some x
        → IsInForce x as_of
        → version_key other ≡ some k
        → (other ≡ version → ⊥)
        → version_lt k key ≡ true)

abbrev pub Selects : String → Versions → Timestamp → Checked Fields → Type 0
Selects id versions as_of r =
    ((t : Fields) × (r ≡ passed t) × IsSelected versions as_of t)
    ⊎ ((r ≡ refused (no_active_version id))
        × ((version : String) (t : Fields)
            → Dict.get versions version ≡ some t
            → IsInForce t as_of
            → ⊥))

entry_key :
    (versions : Versions)
    → AllEntries versions
    → (version : String) (t : Fields) (k : Version) → Dict.get versions version ≡ some t
    → key_of t ≡ passed k
    → version_key version ≡ some k
entry_key versions all version t k found has_key =
    let (k', number, has_key', reads) = all.1 version t found in
    let same : passed k' ≡ passed k = sym has_key' ∙ has_key in ground arith

top-IsSelected :
    (versions : Versions) (as_of : Timestamp) (ts : List Fields) (t : Fields) (top : Version)
    → AllEntries versions
    → Picks versions as_of ts
    → key_of t ≡ passed top
    → Memᴰ t ts
    → IsBound top ts
    → IsSelected versions as_of t
unfolding or_key
top-IsSelected versions as_of ts t top all picks has_top mem bound =
    let (chosen, (version, found)) = picks.1 t mem in
    let number = entry_key versions all version t top found has_top in
    (
      version,
      top,
      found,
      number,
      IsCandidate-IsInForce t as_of chosen,
      λ other x k found' force number' differs.
          let (k', n', has_key, reads) = all.1 other x found' in
          let same : some k' ≡ some k = sym n' ∙ number' in
          let keyed : key_of x ≡ passed k = has_key ∙ ap (λ o. passed (or_key o k)) same in
          version_lt_total top k
            (bound x k (picks.2 other x found' (IsInForce-IsCandidate x as_of force)) keyed)
            (λ equal.
              differs (version_key-injective other version k number' (number ∙ ap some equal))),
    )

selected-Selects :
    (id : String) (versions : Versions) (as_of : Timestamp) (ts : List Fields)
    → AllEntries versions
    → Picks versions as_of ts
    → Selects id versions as_of (highest id ts)
unfolding highest
selected-Selects id versions as_of [] all picks = inr (
  refl,
  λ version t found force.
      absurd (elim (picks.2 version t found (IsInForce-IsCandidate t as_of force)) [ ]),
)
selected-Selects id versions as_of (t ∷ ts) all picks =
    let (w, top, out, has_top, mem, bound) = highest-IsTop id t ts picks.0 in
    inl (w, out, top-IsSelected versions as_of (t ∷ ts) w top all picks has_top mem bound)

module _ (templates : List Fields) (registry : Registry)
    (built : template_version_registry templates ≡ passed registry) where
  -- In a registry that the constructor has built, for a registered template id and a time that is
  -- read, select_active returns a template of that id which is active and in its window, and every
  -- other version of the id that is active and in its window is strictly lower; or it refuses with
  -- "no active template version", and no version of the id is active and in its window.
  pub select_active-Selects :
      (now : Timestamp) (id : String) (as_of : Option String) (versions : Versions) (at : Timestamp)
      → Dict.get registry id ≡ some versions
      → selection_time now as_of ≡ passed at
      → Selects id versions at (select_active registry now id as_of)
  unfolding select_active
  select_active-Selects now id as_of versions at found moment =
      let all = template_version_registry-IsReadable templates registry built id versions found in
      let (ts, read, picks) = candidates-Picks at versions all in
      rw (found, moment, read) (selected-Selects id versions at ts all picks)

  served_version :
      (now : Timestamp) (id : String) (as_of : Option String) (versions : Versions) (at : Timestamp)
      (version : String) (t : Fields)
      → Dict.get registry id ≡ some versions
      → selection_time now as_of ≡ passed at
      → Dict.get versions version ≡ some t
      → IsInForce t at
      → get_version registry now id version false as_of ≡ passed t
  unfolding get_version
  served_version now id as_of versions at version t known moment found (active, in_time) =
      rw (known, found, active, moment, in_time) refl

  -- The template that select_active returns from a registry that the constructor has built is what
  -- get_version returns for one of the versions, at the same time and without inactive templates.
  pub get_version-select_active :
      (now : Timestamp) (id : String) (as_of : Option String) (t : Fields)
      → select_active registry now id as_of ≡ passed t
      → (version : String) × (get_version registry now id version false as_of ≡ passed t)
  unfolding select_active
  get_version-select_active now id as_of t e =
      let (versions, known, e1) =
        bind-passed (or_refuse (Dict.get registry id) (unregistered id)) _ t e in
      let (at, moment, e2) = bind-passed (selection_time now as_of) _ t e1 in
      let there = or_refuse-passed (Dict.get registry id) _ versions known in
      elim (select_active-Selects now id as_of versions at there moment) [
        | inl (w, out, (version, key, found, number, force, rest)) ↦
            let same : passed w ≡ passed t = sym out ∙ e in
            let it : w ≡ t = ground arith in
            (
              version,
              served_version now id as_of versions at version t there moment (found ∙ ap some it)
                  (rw (← it) force),
            )
        | inr (out, _) ↦
            let both : refused (no_active_version id) ≡ passed t = sym out ∙ e in ground arith
      ]
