-- ===== src/Py/Float.antt =====
-- Python's `float`: a finite double is exactly m * 2^e, so equality and order are computed on that
-- form. No operation of the modelled code rounds.
use veri_doc.Prelude.{ℕ, ◌*◌, ◌^◌, Bool, true, false}
use veri_doc.Prelude.Int.{ℤ, pos, pos_part, neg_part, sub_ℕ, ltb_ℤ, eqb_ℤ, ◌-ℤ◌}

pub data Float : Type 0 where
  fin : ℤ → ℤ → Float
  inf : Bool → Float  -- true is +inf
  nan : Float

-- n * 2^k
abbrev pub scale : ℤ → ℕ → ℤ
scale n k = sub_ℕ (pos_part n * 2 ^ k) (neg_part n * 2 ^ k)

-- m * 2^e with the exponents of two numbers brought to the smaller one.
abbrev pub aligned : ℤ → ℤ → ℤ → ℤ
aligned m e e' = scale m (pos_part (e -ℤ e'))

unfoldable pub float_eq : Float → Float → Bool
unfolding ◌-ℤ◌
float_eq (fin m e) (fin n f) = eqb_ℤ (aligned m e f) (aligned n f e)
float_eq (inf true) (inf true) = true
float_eq (inf false) (inf false) = true
float_eq _ _ = false

unfoldable pub float_lt : Float → Float → Bool
unfolding ◌-ℤ◌
float_lt (fin m e) (fin n f) = ltb_ℤ (aligned m e f) (aligned n f e)
float_lt (fin m e) (inf up) = up
float_lt (inf true) y = false
float_lt (inf false) (fin n f) = true
float_lt (inf false) (inf up) = up
float_lt (inf false) nan = false
float_lt (fin m e) nan = false
float_lt nan y = false

-- The value of an `int`.
abbrev pub of_int : ℤ → Float
of_int n = fin n (pos 0)

unfoldable pub is_finite : Float → Bool
is_finite (fin m e) = true
is_finite _ = false
