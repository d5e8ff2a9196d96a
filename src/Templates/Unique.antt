-- ===== src/Templates/Unique.antt =====
-- `_version_key` of core/ir/template_versions.py reads no two texts as the same version: a number is
-- written in one way only.
use Prim.Native.Char.{code}
use text.Mathlib.TextEquality.{Char-path}
use mathlib.Core.List.{append-nil, append_assoc}
use veri_doc.Prelude.{
  ℕ, zero, suc, ◌+◌, ◌-◌, ◌*◌, ◌/◌, ◌%◌, ◌<◌, ◌≤◌, String, true, false, ◌≡◌, refl, sym, ◌∙◌, ap,
  List, [], ◌∷◌, ◌++◌, Option, none, some, ltb, nat_eq, arith, if◌then◌else◌, Bool-cases, inl, inr,
}
use veri_doc.Templates.Version.{
  codes, ◌>>=◌, digits, is_digit, numeral, dot, at_end, Version, read_version, version_key,
}

-- The decimal digits of a number, in rounds that take the last one.
figures_in : ℕ → ℕ → List ℕ
figures_in zero n = []
figures_in (suc fuel) n =
    let before = figures_in fuel (n / 10) in
    if ltb n 10 then (48 + n) ∷ [] else before ++ (48 + n % 10) ∷ []

figures : ℕ → List ℕ
figures n = figures_in (suc n) n

figures_in_enough : (f g n : ℕ) → n < f → n < g → figures_in f n ≡ figures_in g n
unfolding figures_in
figures_in_enough zero g n h k = absurd (omega arith)
figures_in_enough (suc f) zero n h k = absurd (omega arith)
figures_in_enough (suc f) (suc g) n h k = elim (Bool-cases (ltb n 10)) [
  | inl small ↦ rw small refl
  | inr large ↦ rw (large, figures_in_enough f g (n / 10) (ground arith) (ground arith)) refl
]

figures-digit :
    (n c : ℕ) → 1 ≤ n → is_digit c ≡ true → figures (n * 10 + (c - 48)) ≡ figures n ++ c ∷ []
unfolding figures figures_in
figures-digit n c h d =
    let m = n * 10 + (c - 48) in
    let tens : m / 10 ≡ n = ground arith in
    let ones : 48 + m % 10 ≡ c = ground arith in
    let large : ltb m 10 ≡ false = ground arith in
    rw (large, tens, ones, figures_in_enough m (suc n) n (ground arith) (omega arith)) refl

digits-figures :
    (n : ℕ) (cs : List ℕ) (m : ℕ) (r : List ℕ)
    → 1 ≤ n
    → digits n cs ≡ (m, r)
    → figures n ++ cs ≡ figures m ++ r
unfolding digits
digits-figures n [] m r h e = rw (ap (λ p. p.0) e, ap (λ p. p.1) e) refl
digits-figures n (c ∷ cs) m r h e = elim (Bool-cases (is_digit c)) [
  | inl more ↦
      sym (append_assoc (figures n) (c ∷ []) cs)
      ∙ ap (λ x. x ++ cs) (sym (figures-digit n c h more))
      ∙ digits-figures (n * 10 + (c - 48)) cs m r (omega arith) (ground arith)
  | inr done ↦
      let same : n ≡ m = ground arith in
      let rest : (c ∷ cs) ≡ r = ground arith in rw (same, rest) refl
]

figures_one : (c : ℕ) → is_digit c ≡ true → figures (c - 48) ≡ c ∷ []
unfolding figures figures_in
figures_one c d =
    let small : ltb (c - 48) 10 ≡ true = ground arith in
    let back : 48 + (c - 48) ≡ c = ground arith in rw (small, back) refl

figures_zero : figures 0 ≡ 48 ∷ []
unfolding figures figures_in
figures_zero = refl

-- What `numeral` has read, it leaves away.
numeral-figures :
    (cs : List ℕ) (m : ℕ) (r : List ℕ) → numeral cs ≡ some (m, r) → cs ≡ figures m ++ r
unfolding numeral
numeral-figures [] m r e = ground arith
numeral-figures (c ∷ cs) m r e = elim (Bool-cases (nat_eq c 48)) [
  | inl nought ↦
      let none_else : m ≡ 0 = ground arith in
      let rest : cs ≡ r = ground arith in
      let figure : c ≡ 48 = ground arith in rw (none_else, rest, figure, figures_zero) refl
  | inr other ↦ elim (Bool-cases (is_digit c)) [
    | inl digit ↦
        let done : digits (c - 48) cs ≡ (m, r) = ground arith in
        sym (ap (λ x. x ++ cs) (figures_one c digit))
        ∙ digits-figures (c - 48) cs m r (ground arith) done
    | inr none_such ↦ ground arith
  ]
]

dot-read : (cs r : List ℕ) → dot cs ≡ some r → cs ≡ 46 ∷ r
unfolding dot
dot-read [] r e = ground arith
dot-read (c ∷ cs) r e = ground arith

at_end-read : (cs : List ℕ) (u : Unit {0}) → at_end cs ≡ some u → cs ≡ []
unfolding at_end
at_end-read [] u e = refl
at_end-read (c ∷ cs) u e = ground arith

-- The only text of a version.
spelling : Version → List ℕ
spelling v = figures v.major ++ (46 ∷ figures v.minor ++ (46 ∷ figures v.patch))

pub codes-injective : (s t : String) → codes s ≡ codes t → s ≡ t
unfolding codes
codes-injective String.[] String.[] e = refl
codes-injective String.[] (String.◌∷◌ d t) e = ground arith
codes-injective (String.◌∷◌ c s) String.[] e = ground arith
codes-injective (String.◌∷◌ c s) (String.◌∷◌ d t) e =
    let head : code c ≡ code d = ground arith in
    let tail : codes s ≡ codes t = ground arith in
    λ i. String.◌∷◌ (Char-path c d head i) (codes-injective s t tail i)

pub bind-some :
    {A B : Type 0} (o : Option A) (f : A → Option B) (b : B)
    → (o >>= f) ≡ some b
    → (a : A) × (o ≡ some a) × (f a ≡ some b)
bind-some none f b e = ground arith
bind-some (some a) f b e = (a, refl, e)

assemble :
    {cs ra r1 rb r2 rc : List ℕ} (a b c : ℕ)
    → ra ≡ 46 ∷ r1
    → r1 ≡ figures b ++ rb
    → rb ≡ 46 ∷ r2
    → r2 ≡ figures c ++ rc
    → rc ≡ []
    → cs ≡ figures a ++ ra
    → cs ≡ figures a ++ (46 ∷ figures b ++ (46 ∷ figures c))
assemble a b c dot1 read_b dot2 read_c finished here =
    rw (here, dot1, read_b, dot2, read_c, finished, append-nil (figures c)) refl

or_version : Option Version → Version → Version
or_version none v = v
or_version (some w) v = w

read_version-spelling : (cs : List ℕ) (v : Version) → read_version cs ≡ some v → cs ≡ spelling v
unfolding read_version spelling or_version
read_version-spelling cs v e =
    let (a, read_a, e1) = bind-some (numeral cs) _ v e in
    let (r1, dot1, e2) = bind-some (dot a.1) _ v e1 in
    let (b, read_b, e3) = bind-some (numeral r1) _ v e2 in
    let (r2, dot2, e4) = bind-some (dot b.1) _ v e3 in
    let (c, read_c, e5) = bind-some (numeral r2) _ v e4 in
    let (u, finished, e6) = bind-some (at_end c.1) _ v e5 in
    let here = numeral-figures cs a.0 a.1 read_a in
    assemble a.0 b.0 c.0 (dot-read a.1 r1 dot1) (numeral-figures r1 b.0 b.1 read_b)
      (dot-read b.1 r2 dot2) (numeral-figures r2 c.0 c.1 read_c) (at_end-read c.1 u finished) here
    ∙ ap (λ o. spelling (or_version o v)) e6

-- Two texts that are read as the same version are the same text, so that no two versions of a
-- template tie.
pub version_key-injective :
    (s t : String) (v : Version) → version_key s ≡ some v → version_key t ≡ some v → s ≡ t
unfolding version_key
version_key-injective s t v a b =
    codes-injective s t
      (read_version-spelling (codes s) v a ∙ sym (read_version-spelling (codes t) v b))
