-- ===== src/Py/Value.antt =====
-- Python's dynamic values, as decoded from JSON or built by the services: a dict has string keys.
use veri_doc.Prelude.{
  ℕ, String, Bool, true, false, ◌&&◌, List, [], ◌∷◌, Option, none, some, ◌==◌, nat_eq,
}
use veri_doc.Prelude.Int.{ℤ, pos}
use veri_doc.Py.Float.{Float, of_int, float_eq}

mutual
  pub data Value : Type 0 where
    null : Value
    bool : Bool → Value
    int : ℤ → Value
    float : Float → Value
    str : String → Value
    bytes : List ℕ → Value
    list : Items → Value
    tuple : Items → Value
    dict : Fields → Value
    -- an instance of the dataclass _ArtifactReference of services/api/job_queue.py
    artifact : String → Value

  pub data Items : Type 0 where
    nil : Items
    cons : Value → Items → Items

  pub data Fields : Type 0 where
    end : Fields
    field : String → Value → Fields → Fields

-- record.get(key), `none` for a missing key
unfoldable pub get_field? : Fields → String → Option Value
get_field? end k = none
get_field? (field j v fs) k = elim (j == k) [ true ↦ some v | false ↦ get_field? fs k ]

-- key in record
unfoldable pub has : Fields → String → Bool
has end k = false
has (field j v fs) k = elim (j == k) [ true ↦ true | false ↦ has fs k ]

abbrev or_null : Option Value → Value
or_null none = null
or_null (some v) = v

-- record.get(key), `None` for a missing key
unfoldable pub get : Fields → String → Value
unfolding get_field?
get fs k = or_null (get_field? fs k)

pub size : Fields → ℕ
size end = 0
size (field _ _ fs) = ℕ.suc (size fs)

unfoldable pub bytes_eq : List ℕ → List ℕ → Bool
bytes_eq [] [] = true
bytes_eq (a ∷ as') (b ∷ bs) = nat_eq a b && bytes_eq as' bs
bytes_eq _ _ = false

-- Numbers of different types compare by their value; True is 1.
as_number : Value → Option Float
as_number (bool true) = some (of_int (pos 1))
as_number (bool false) = some (of_int (pos 0))
as_number (int n) = some (of_int n)
as_number (float x) = some x
as_number _ = none

same_number : Option Float → Option Float → Bool
same_number (some x) (some y) = float_eq x y
same_number _ _ = false

-- x == y: containers by their items, dicts in any order.
unfoldable mutual
  unfolding size bytes_eq as_number same_number get_field?

  pub py_eq : Value → Value → Bool
  py_eq null null = true
  py_eq (str a) (str b) = a == b
  py_eq (bytes a) (bytes b) = bytes_eq a b
  py_eq (list xs) (list ys) = items_eq xs ys
  py_eq (tuple xs) (tuple ys) = items_eq xs ys
  py_eq (dict fs) (dict gs) = nat_eq (size fs) (size gs) && fields_in fs gs
  py_eq (artifact a) (artifact b) = a == b
  py_eq (bool a) y = same_number (as_number (bool a)) (as_number y)
  py_eq (int a) y = same_number (as_number (int a)) (as_number y)
  py_eq (float a) y = same_number (as_number (float a)) (as_number y)
  py_eq _ _ = false

  pub items_eq : Items → Items → Bool
  items_eq nil nil = true
  items_eq (cons x xs) (cons y ys) = py_eq x y && items_eq xs ys
  items_eq _ _ = false

  pub fields_in : Fields → Fields → Bool
  fields_in end gs = true
  fields_in (field k v fs) gs =
      (elim (get_field? gs k) [ none ↦ false | some w ↦ py_eq v w ]) && fields_in fs gs
