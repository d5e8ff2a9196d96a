-- ===== src/Templates/Version.antt =====
-- `_version_key` of core/ir/template_versions.py: the three numbers of a version, which have no signs
-- and no leading zeros.
use Prim.Native.Char.{code}
use veri_doc.Prelude.{
  ℕ, ◌+◌, ◌-◌, ◌*◌, String, Bool, true, false, ◌&&◌, List, [], ◌∷◌, Option, none, some, ltb, leb,
  nat_eq, if◌then◌else◌,
}

-- The code points of a text.
unfoldable pub codes : String → List ℕ
codes String.[] = []
codes (String.◌∷◌ c s) = code c ∷ codes s

abbrev pub is_digit : ℕ → Bool
is_digit c = leb 48 c && leb c 57

-- [0-9]*, behind digits that make `n`
unfoldable pub digits : ℕ → List ℕ → ℕ × List ℕ
digits n [] = (n, [])
digits n (c ∷ cs) =
    let more = digits (n * 10 + (c - 48)) cs in if is_digit c then more else (n, c ∷ cs)

-- 0|[1-9][0-9]*
unfoldable pub numeral : List ℕ → Option (ℕ × List ℕ)
numeral [] = none
numeral (c ∷ cs) =
    if nat_eq c 48 then some (0, cs) else if is_digit c then some (digits (c - 48) cs) else none

unfoldable pub dot : List ℕ → Option (List ℕ)
dot [] = none
dot (c ∷ cs) = if nat_eq c 46 then some cs else none

unfoldable pub at_end : List ℕ → Option (Unit {0})
at_end [] = some tt
at_end (_ ∷ _) = none

pub record Version : Type 0 where
  pub major : ℕ
  pub minor : ℕ
  pub patch : ℕ

infixl 5 ◌>>=◌
abbrev pub ◌>>=◌ {ℓ κ} : {A : Type ℓ} {B : Type κ} → Option A → (A → Option B) → Option B
none >>= f = none
some a >>= f = f a

-- _SEMVER_RE.fullmatch
unfoldable pub read_version : List ℕ → Option Version
read_version cs = do
  a ← numeral cs
  after_major ← dot a.1
  b ← numeral after_major
  after_minor ← dot b.1
  c ← numeral after_minor
  finished ← at_end c.1
  some (record { major = a.0; minor = b.0; patch = c.0 })

-- `_version_key`
unfoldable pub version_key : String → Option Version
version_key version = read_version (codes version)

-- The order of the tuples.
unfoldable pub version_lt : Version → Version → Bool
version_lt v w =
    if ltb v.major w.major
    then true
    else if nat_eq v.major w.major
    then if ltb v.minor w.minor then true else nat_eq v.minor w.minor && ltb v.patch w.patch
    else false
