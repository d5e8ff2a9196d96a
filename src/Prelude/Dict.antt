-- ===== src/Prelude/Dict.antt =====
-- Python's `dict` with string keys, as an association list in insertion order: a write to a key
-- that is there keeps the key's place, a new key goes to the end.
use Prim.Native.String.{String}
use mathlib.Core.Path.{◌≡◌, refl, ap, ◌∙◌}
use mathlib.Core.Bool.{Bool, true, false, false≢true}
use mathlib.Core.Option.{Option, none, some}
use mathlib.Core.List.{List, [], ◌∷◌}
use native.Mathlib.Omega.{arith}
use text.Mathlib.Text.{◌==◌}
use text.Mathlib.TextEquality.{eq_iff}
use veri_doc.Prelude.Tests.{if◌then◌else◌, Bool-cases}
use mathlib.Core.Logic.{inl, inr}
use veri_doc.Prelude.Lists.{any}

abbrev pub Dict {ℓ} : Type ℓ → Type ℓ
Dict V = List (String × V)

abbrev pub is_some {ℓ} : {A : Type ℓ} → Option A → Bool
is_some none = false
is_some (some _) = true

module _ {ℓ} {V : Type ℓ} where
  -- d.get(k)
  unfoldable pub get : Dict V → String → Option V
  get [] k = none
  get ((j, v) ∷ d) k = if j == k then some v else get d k

  -- d[k] = v
  unfoldable pub put : Dict V → String → V → Dict V
  put [] k v = (k, v) ∷ []
  put ((j, w) ∷ d) k v = if j == k then (j, v) ∷ d else (j, w) ∷ put d k v

  -- d.pop(k, None)
  unfoldable pub remove : Dict V → String → Dict V
  remove [] k = []
  remove ((j, v) ∷ d) k = let rest = remove d k in if j == k then rest else (j, v) ∷ rest

  abbrev pub values : Dict V → List V
  values [] = []
  values ((_, v) ∷ d) = v ∷ values d

  pub get-put :
      (d : Dict V) (k j : String) (v : V) → get (put d k v) j ≡ (if k == j then some v else get d j)
  unfolding get put
  get-put [] k j v = refl
  get-put ((i, w) ∷ d) k j v = ground (arith, eq_iff k j, eq_iff i k, eq_iff i j, get-put d k j v)

  pub get-remove :
      (d : Dict V) (k j : String) → get (remove d k) j ≡ (if k == j then none else get d j)
  unfolding get remove
  get-remove [] k j = ground arith
  get-remove ((i, w) ∷ d) k j = ground (arith, eq_iff k j, eq_iff i k, eq_iff i j, get-remove d k j)

pub get-empty {ℓ} : {V : Type ℓ} (k : String) → get {V = V} [] k ≡ none
unfolding get
get-empty k = refl

pub ruleset dict_laws = (get-put, get-remove, get-empty)

-- What holds of no value of a dict does not hold of one that is looked up.
pub get-any-values {ℓ} :
    {V : Type ℓ} (p : V → Bool) (d : Dict V) (k : String) (v : V)
    → any p (values d) ≡ false
    → get d k ≡ some v
    → p v ≡ false
unfolding any get
get-any-values p [] k v h e = cc
get-any-values p ((j, w) ∷ d) k v h e = ground (arith, get-any-values p d k v)

-- No key stands twice.
abbrev pub Distinct {ℓ} : {V : Type ℓ} → Dict V → Type ℓ
Distinct {V} [] = Unit
Distinct {V} ((k, v) ∷ d) = (get d k ≡ none) × Distinct d

module _ {ℓ} {V : Type ℓ} where
  pub Distinct-put : (d : Dict V) (k : String) (v : V) → Distinct d → Distinct (put d k v)
  unfolding put
  Distinct-put [] k v h = (get-empty k, tt)
  Distinct-put ((j, w) ∷ d) k v h = elim (Bool-cases (j == k)) [
    | inl same ↦ rw same h
    | inr other ↦
        rw other
          (ground (arith, get-put d k j v, eq_iff j k, eq_iff k j, h.0), Distinct-put d k v h.1)
  ]

  pub Distinct-remove : (d : Dict V) (k : String) → Distinct d → Distinct (remove d k)
  unfolding remove
  Distinct-remove [] k h = tt
  Distinct-remove ((j, w) ∷ d) k h = elim (Bool-cases (j == k)) [
    | inl same ↦ rw same (Distinct-remove d k h.1)
    | inr other ↦ rw other (ground (arith, get-remove d k j, h.0), Distinct-remove d k h.1)
  ]

  -- A value of the dict for which a test holds stands under a key.
  pub any-values-get :
      (p : V → Bool) (d : Dict V)
      → Distinct d
      → any p (values d) ≡ true
      → (k : String) × (v : V) × (get d k ≡ some v) × (p v ≡ true)
  unfolding any get
  any-values-get p [] h e = absurd (false≢true e)
  any-values-get p ((j, w) ∷ d) h e = elim (Bool-cases (p w)) [
    | inl holds ↦ (j, w, ground (arith, eq_iff j j), holds)
    | inr fails ↦
        let (k, v, found, holds) = any-values-get p d h.1 (ground arith) in
        (k, v, ground (arith, eq_iff j k, h.0), holds)
  ]

module _ {ℓ} {V W : Type ℓ} (f : V → W) where
  unfoldable pub map_values : Dict V → Dict W
  map_values [] = []
  map_values ((k, v) ∷ d) = (k, f v) ∷ map_values d

  abbrev pub map_found : Option V → Option W
  map_found none = none
  map_found (some v) = some (f v)

  pub get-map_values : (d : Dict V) (k : String) → get (map_values d) k ≡ map_found (get d k)
  unfolding get map_values
  get-map_values [] k = refl
  get-map_values ((j, v) ∷ d) k = elim (Bool-cases (j == k)) [
    | inl hit ↦ rw hit refl
    | inr miss ↦ rw miss (get-map_values d k)
  ]

  pub Distinct-map_values : (d : Dict V) → Distinct d → Distinct (map_values d)
  unfolding map_values
  Distinct-map_values [] h = tt
  Distinct-map_values ((k, v) ∷ d) h =
      (get-map_values d k ∙ ap map_found h.0, Distinct-map_values d h.1)
