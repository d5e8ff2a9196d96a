-- ===== src/Templates/Select/Highest.antt =====
-- The highest of the candidates of `select_active` (core/ir/template_versions.py).
use mathlib.Core.List.{Memᴰ}
use veri_doc.Prelude.{
  String, true, false, List, [], ◌∷◌, ◌≡◌, refl, sym, ◌∙◌, ap, arith, Bool-cases, inl, inr,
}
use veri_doc.Py.Value.{Fields}
use veri_doc.Templates.Outcome.{Checked, passed}
use veri_doc.Templates.Version.{Version, version_lt}
use veri_doc.Templates.Select.{key_of, highest_from, highest}

version_lt_trans :
    (u v w : Version) → version_lt u v ≡ true → version_lt v w ≡ true → version_lt u w ≡ true
unfolding version_lt
version_lt_trans u v w a b = ground arith

version_lt_flip :
    (u v w : Version) → version_lt u v ≡ true → version_lt u w ≡ false → version_lt v w ≡ true → ⊥
version_lt_flip u v w a b c = ground (arith, version_lt_trans u v w a c)

-- No lower than `w` and not higher than `u` is not higher.
not_lt_trans :
    (u v w : Version) → version_lt u v ≡ false → version_lt v w ≡ false → version_lt u w ≡ false
unfolding version_lt
not_lt_trans u v w a b = ground arith

version_lt_asym : (u v : Version) → version_lt u v ≡ true → version_lt v u ≡ false
unfolding version_lt
version_lt_asym u v a = ground arith

version_lt_irrefl : (u : Version) → version_lt u u ≡ false
unfolding version_lt
version_lt_irrefl u = ground arith

-- No template of the list has a higher key.
abbrev pub IsBound : Version → List Fields → Type 0
IsBound key ts =
    (x : Fields) (k : Version) → Memᴰ x ts → key_of x ≡ passed k → version_lt key k ≡ false

same_key :
    (x y : Fields) (k l : Version) → x ≡ y → key_of x ≡ passed k → key_of y ≡ passed l → k ≡ l
same_key x y k l e a b = let c : passed k ≡ passed l = sym a ∙ ap key_of e ∙ b in ground arith

IsBound-cons :
    (top k : Version) (t : Fields) (ts : List Fields)
    → key_of t ≡ passed k
    → version_lt top k ≡ false
    → IsBound top ts
    → IsBound top (t ∷ ts)
IsBound-cons top k t ts has_key low bound x l (Memᴰ.head e) has_l =
    rw (same_key x t l k e has_l has_key) low
IsBound-cons top k t ts has_key low bound x l (Memᴰ.tail m) has_l = bound x l m has_l

IsBound-nil : (top : Version) → IsBound top []
IsBound-nil top x k m e = elim m [ ]

abbrev pub AllKeyed : List Fields → Type 0
AllKeyed [] = Unit
AllKeyed (t ∷ ts) = ((k : Version) × (key_of t ≡ passed k)) × AllKeyed ts

-- A template of the list with the highest key comes out.
abbrev pub IsTop : Checked Fields → List Fields → Type 0
IsTop r ts =
    (t : Fields) × (top : Version) × (r ≡ passed t)
    × (key_of t ≡ passed top)
    × Memᴰ t ts
    × IsBound top ts

skip_second : (w a b : Fields) (ts : List Fields) → Memᴰ w (a ∷ ts) → Memᴰ w (a ∷ b ∷ ts)
skip_second w a b ts (Memᴰ.head e) = Memᴰ.head e
skip_second w a b ts (Memᴰ.tail m) = Memᴰ.tail (Memᴰ.tail m)

IsBound-second :
    (top k : Version) (a b : Fields) (ts : List Fields)
    → key_of b ≡ passed k
    → version_lt top k ≡ false
    → IsBound top (a ∷ ts)
    → IsBound top (a ∷ b ∷ ts)
IsBound-second top k a b ts has_key low bound x l (Memᴰ.head e) has_l =
    bound x l (Memᴰ.head e) has_l
IsBound-second top k a b ts has_key low bound x l (Memᴰ.tail (Memᴰ.head e)) has_l =
    rw (same_key x b l k e has_l has_key) low
IsBound-second top k a b ts has_key low bound x l (Memᴰ.tail (Memᴰ.tail m)) has_l =
    bound x l (Memᴰ.tail m) has_l

highest_from-IsTop :
    (key : Version) (best : Fields) (ts : List Fields)
    → key_of best ≡ passed key
    → AllKeyed ts
    → IsTop (highest_from key best ts) (best ∷ ts)
unfolding highest_from
highest_from-IsTop key best [] is_best all = (
  best,
  key,
  refl,
  is_best,
  Memᴰ.head refl,
  IsBound-cons key key best [] is_best (version_lt_irrefl key) (IsBound-nil key),
)
highest_from-IsTop key best (t ∷ ts) is_best all =
    let (k, has_key) = all.0 in
    elim (Bool-cases (version_lt key k)) [
      | inl yields ↦
          let (w, top, out, has_top, mem, bound) = highest_from-IsTop k t ts has_key all.1 in
          let over = bound t k (Memᴰ.head refl) has_key in
          (
            w,
            top,
            rw (has_key, yields) out,
            has_top,
            Memᴰ.tail mem,
            IsBound-cons top key best (t ∷ ts) is_best
                (not_lt_trans top k key over (version_lt_asym key k yields)) bound,
          )
      | inr stays ↦
          let (w, top, out, has_top, mem, bound) = highest_from-IsTop key best ts is_best all.1 in
          let over = bound best key (Memᴰ.head refl) is_best in
          (
            w,
            top,
            rw (has_key, stays) out,
            has_top,
            skip_second w best t ts mem,
            IsBound-second top k best t ts has_key (not_lt_trans top key k over stays) bound,
          )
    ]

pub highest-IsTop :
    (id : String) (t : Fields) (ts : List Fields)
    → AllKeyed (t ∷ ts)
    → IsTop (highest id (t ∷ ts)) (t ∷ ts)
unfolding highest
highest-IsTop id t ts all =
    let (k, has_key) = all.0 in
    let (w, top, out, has_top, mem, bound) = highest_from-IsTop k t ts has_key all.1 in
    (w, top, rw has_key out, has_top, mem, bound)
