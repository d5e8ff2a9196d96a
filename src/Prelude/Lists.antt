-- ===== src/Prelude/Lists.antt =====
-- Lists of texts used as Python sets and queues, and Boolean quantifiers.
use Prim.Native.Nat.{ℕ, suc}
use Prim.Native.String.{String}
use mathlib.Core.Path.{◌≡◌, refl}
use mathlib.Core.Bool.{Bool, true, false, ◌&&◌, ◌||◌}
use mathlib.Core.List.{List, [], ◌∷◌, ◌++◌}
use native.Mathlib.Omega.{arith}
use text.Mathlib.Text.{◌==◌}
use text.Mathlib.TextEquality.{eq_iff}
use veri_doc.Prelude.Tests.{if◌then◌else◌}

module _ {ℓ} {A : Type ℓ} where
  abbrev pub length : List A → ℕ
  length [] = 0
  length (x ∷ xs) = suc (length xs)

  -- any(p(x) for x in xs)
  unfoldable pub any : (A → Bool) → List A → Bool
  any p [] = false
  any p (x ∷ xs) = p x || any p xs

  -- all(p(x) for x in xs)
  unfoldable pub all : (A → Bool) → List A → Bool
  all p [] = true
  all p (x ∷ xs) = p x && all p xs

  -- [x for x in xs if p(x)]
  unfoldable pub select : (A → Bool) → List A → List A
  select p [] = []
  select p (x ∷ xs) = let rest = select p xs in if p x then x ∷ rest else rest

-- x in xs
unfoldable pub contains : List String → String → Bool
contains [] a = false
contains (x ∷ xs) a = x == a || contains xs a

-- set.add
unfoldable pub add_once : List String → String → List String
add_once xs a = if contains xs a then xs else a ∷ xs

-- set.discard
unfoldable pub discard : List String → String → List String
discard [] a = []
discard (x ∷ xs) a = let rest = discard xs a in if x == a then rest else x ∷ rest

-- deque.remove: the first occurrence goes.
unfoldable pub remove_first : List String → String → List String
remove_first [] a = []
remove_first (x ∷ xs) a = if x == a then xs else x ∷ remove_first xs a

pub contains-add_once :
    (xs : List String) (a b : String) → contains (add_once xs a) b ≡ (a == b || contains xs b)
unfolding contains add_once
contains-add_once xs a b = ground (arith, eq_iff a b)

pub contains-discard :
    (xs : List String) (a b : String)
    → contains (discard xs a) b ≡ (if a == b then false else contains xs b)
unfolding contains discard
contains-discard [] a b = ground arith
contains-discard (x ∷ xs) a b =
    ground (arith, eq_iff a b, eq_iff x a, eq_iff x b, contains-discard xs a b)

pub contains-remove_first_ne :
    (xs : List String) (a b : String)
    → (a == b) ≡ false
    → contains (remove_first xs a) b ≡ contains xs b
unfolding contains remove_first
contains-remove_first_ne [] a b h = refl
contains-remove_first_ne (x ∷ xs) a b h =
    ground (arith, eq_iff a b, eq_iff x a, eq_iff x b, contains-remove_first_ne xs a b h)

pub contains-append :
    (xs ys : List String) (a : String) → contains (xs ++ ys) a ≡ (contains xs a || contains ys a)
unfolding contains
contains-append [] ys a = refl
contains-append (x ∷ xs) ys a = ground (arith, contains-append xs ys a)

-- tuple(dict.fromkeys(xs)): the first occurrence of each text is kept.
unfoldable pub unique_from : List String → List String → List String
unique_from seen [] = []
unique_from seen (x ∷ xs) =
    let rest = unique_from seen xs in
    let fresh = x ∷ unique_from (x ∷ seen) xs in if contains seen x then rest else fresh
