-- ===== src/Py/Equality.antt =====
-- Python's `==` on the values that equal themselves: those without a NaN, whose dicts name no key
-- twice (no Python dict does).
use veri_doc.Prelude.{
  String, ◌≡◌, refl, true, false, List, [], ◌∷◌, ℕ, some, arith, ◌==◌, eq_iff, eq_refl, nat_eq, ◌+◌,
  Bool-cases, Option-cases, inl, inr,
}
use mathlib.Core.Path.{subst}
use veri_doc.Prelude.Int.{ℤ, eqb_ℤ, pos_part, neg_part}
use veri_doc.Py.Float.{Float, fin, inf, nan, float_eq, of_int, aligned}
use veri_doc.Py.Value.{
  Value, Items, Fields, null, bool, int, float, str, bytes, list, tuple, dict, artifact, nil, cons,
  end, field, get_field?, get, has, size, py_eq, items_eq, fields_in, bytes_eq,
}

abbrev IsNumber : Float → Type 0
IsNumber nan = ⊥
IsNumber _ = Unit

abbrev mutual
  pub IsPlain : Value → Type 0
  IsPlain (float x) = IsNumber x
  IsPlain (list xs) = IsPlainItems xs
  IsPlain (tuple xs) = IsPlainItems xs
  IsPlain (dict fs) = IsPlainFields fs
  IsPlain _ = Unit

  pub IsPlainItems : Items → Type 0
  IsPlainItems nil = Unit
  IsPlainItems (cons x xs) = IsPlain x × IsPlainItems xs

  pub IsPlainFields : Fields → Type 0
  IsPlainFields end = Unit
  IsPlainFields (field k v fs) = (has fs k ≡ false) × IsPlain v × IsPlainFields fs

nat_eq_refl : (n : ℕ) → nat_eq n n ≡ true
nat_eq_refl n = ground arith

eqb_ℤ-refl : (a : ℤ) → eqb_ℤ a a ≡ true
eqb_ℤ-refl a = nat_eq_refl (pos_part a + neg_part a)

float_eq_refl : (x : Float) → IsNumber x → float_eq x x ≡ true
unfolding float_eq
float_eq_refl (fin m e) h = eqb_ℤ-refl (aligned m e e)
float_eq_refl (inf true) h = refl
float_eq_refl (inf false) h = refl
float_eq_refl nan h = absurd h

bytes_eq_refl : (xs : List ℕ) → bytes_eq xs xs ≡ true
unfolding bytes_eq
bytes_eq_refl [] = refl
bytes_eq_refl (x ∷ xs) = ground (arith, nat_eq_refl x, bytes_eq_refl xs)

-- Every field of `fs` is the field of its name in `gs`.
abbrev AreIn : Fields → Fields → Type 0
AreIn end gs = Unit
AreIn (field k v fs) gs = (get_field? gs k ≡ some v) × AreIn fs gs

AreIn-field :
    (fs gs : Fields) (k : String) (v : Value)
    → has fs k ≡ false
    → AreIn fs gs
    → AreIn fs (field k v gs)
unfolding has get_field?
AreIn-field end gs k v h a = tt
AreIn-field (field j w fs) gs k v h a =
    (ground (arith, eq_iff j k, eq_iff k j, a.0), AreIn-field fs gs k v (ground arith) a.1)

AreIn-refl : (fs : Fields) → IsPlainFields fs → AreIn fs fs
unfolding get_field?
AreIn-refl end h = tt
AreIn-refl (field k v fs) h =
    (ground (arith, eq_iff k k), AreIn-field fs fs k v h.0 (AreIn-refl fs h.2))

mutual
  unfolding py_eq float_eq

  py_eq_self : (v : Value) → IsPlain v → py_eq v v ≡ true
  py_eq_self null h = refl
  py_eq_self (bool true) h = refl
  py_eq_self (bool false) h = refl
  py_eq_self (int n) h = float_eq_refl (of_int n) tt
  py_eq_self (float x) h = float_eq_refl x h
  py_eq_self (str s) h = eq_refl s
  py_eq_self (bytes b) h = bytes_eq_refl b
  py_eq_self (list xs) h = items_eq_self xs h
  py_eq_self (tuple xs) h = items_eq_self xs h
  py_eq_self (dict fs) h =
      ground (arith, nat_eq_refl (size fs), fields_in_all fs fs h (AreIn-refl fs h))
  py_eq_self (artifact a) h = eq_refl a

  items_eq_self : (xs : Items) → IsPlainItems xs → items_eq xs xs ≡ true
  items_eq_self nil h = refl
  items_eq_self (cons x xs) h = ground (arith, py_eq_self x h.0, items_eq_self xs h.1)

  fields_in_all : (fs gs : Fields) → IsPlainFields fs → AreIn fs gs → fields_in fs gs ≡ true
  fields_in_all end gs h a = refl
  fields_in_all (field k v fs) gs h a =
      ground (arith, a.0, py_eq_self v h.1, fields_in_all fs gs h.2 a.1)

-- v == v
pub py_eq_refl : (v : Value) → IsPlain v → py_eq v v ≡ true
py_eq_refl v h = py_eq_self v h

IsPlain-get :
    (fs : Fields) (k : String) (v : Value) → IsPlainFields fs → get_field? fs k ≡ some v → IsPlain v
unfolding get_field?
IsPlain-get end k v h e = cc
IsPlain-get (field j w fs) k v h e = elim (Bool-cases (j == k)) [
  | inl hit ↦ let same : w ≡ v = ground arith in subst IsPlain same h.1
  | inr miss ↦ IsPlain-get fs k v h.2 (ground arith)
]

-- A field of a plain dict, or the None of a missing one, is plain.
pub get-IsPlain : (fs : Fields) (k : String) → IsPlainFields fs → IsPlain (get fs k)
unfolding get
get-IsPlain fs k h = elim (Option-cases (get_field? fs k)) [
  | inl e ↦ rw e tt
  | inr (v, e) ↦ rw e (IsPlain-get fs k v h e)
]
