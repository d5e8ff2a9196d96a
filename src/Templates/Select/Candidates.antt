-- ===== src/Templates/Select/Candidates.antt =====
-- The versions that `select_active` (core/ir/template_versions.py) chooses from.
use mathlib.Core.List.{Memᴰ}
use veri_doc.Prelude.{
  String, Bool, true, false, List, [], ◌∷◌, some, ◌==◌, ◌≡◌, refl, sym, ◌∙◌, ap, eq_iff, arith,
  Bool-cases, inl, inr,
}
use veri_doc.Prelude.Dict
use veri_doc.Prelude.Dict.{Dict, Distinct, get-empty}
use veri_doc.Py.Value.{Fields}
use veri_doc.Templates.Outcome.{passed}
use veri_doc.Templates.Version.{Version}
use veri_doc.Templates.Calendar.{Timestamp}
use veri_doc.Templates.Registry.{Versions}
use veri_doc.Templates.Select.{is_effective_at, is_active, is_candidate, candidates, key_of}
use veri_doc.Templates.Select.WellFormed.{AllEntries}
use veri_doc.Templates.Select.Highest.{AllKeyed}

-- The template is active and in its window.
abbrev pub IsCandidate : Fields → Timestamp → Type 0
IsCandidate template as_of = is_candidate template as_of ≡ passed true

-- What the candidates are of the versions.
abbrev pub Picks : Versions → Timestamp → List Fields → Type 0
Picks versions as_of ts =
    AllKeyed ts
    × ((t : Fields)
        → Memᴰ t ts
        → IsCandidate t as_of × ((version : String) × (Dict.get versions version ≡ some t)))
    × ((version : String) (t : Fields)
        → Dict.get versions version ≡ some t
        → IsCandidate t as_of
        → Memᴰ t ts)

is_candidate-passed :
    (t : Fields) (as_of : Timestamp) (b : Bool)
    → is_effective_at t as_of ≡ passed b
    → (c : Bool) × (is_candidate t as_of ≡ passed c)
unfolding is_candidate
is_candidate-passed t as_of b e = elim (Bool-cases (is_active t)) [
  | inl yes' ↦ (b, rw (is_candidate, yes') e)
  | inr no' ↦ (false, rw (is_candidate, no') refl)
]

module _ (v : String) (t : Fields) (versions : Versions) where
  get_head : Dict.get ((v, t) ∷ versions) v ≡ some t
  unfolding Dict.get
  get_head = ground (arith, eq_iff v v)

  get_tail :
      Distinct ((v, t) ∷ versions)
      → (w : String) (x : Fields) → Dict.get versions w ≡ some x
      → Dict.get ((v, t) ∷ versions) w ≡ some x
  unfolding Dict.get
  get_tail d w x found = ground (arith, eq_iff v w, d.0)

  get_cons :
      (w : String) (x : Fields)
      → Dict.get ((v, t) ∷ versions) w ≡ some x
      → (v == w) ≡ false
      → Dict.get versions w ≡ some x
  unfolding Dict.get
  get_cons w x found miss = ground arith

  get_own :
      (w : String) (x : Fields) → Dict.get ((v, t) ∷ versions) w ≡ some x → (v == w) ≡ true → t ≡ x
  unfolding Dict.get
  get_own w x found hit = ground arith

  AllEntries-tail : AllEntries ((v, t) ∷ versions) → AllEntries versions
  AllEntries-tail all = (all.0.1, λ w x found. all.1 w x (get_tail all.0 w x found))

nothing : (v : String) (t : Fields) → Dict.get {V = Fields} [] v ≡ some t → ⊥
nothing v t found = ground (arith, get-empty {V = Fields} v)

module _ (as_of : Timestamp) where
  Picks-skip :
      (v : String) (t : Fields) (versions : Versions) (ts : List Fields)
      → Distinct ((v, t) ∷ versions)
      → is_candidate t as_of ≡ passed false
      → Picks versions as_of ts
      → Picks ((v, t) ∷ versions) as_of ts
  Picks-skip v t versions ts d out (keyed, only, all) = (
    keyed,
    λ x m. let (c, (w, found)) = only x m in (c, (w, get_tail v t versions d w x found)),
    λ w x found c. elim (Bool-cases (v == w)) [
      | inl hit ↦
          let same = get_own v t versions w x found hit in
          let both : passed false ≡ passed true =
            sym out ∙ ap (λ y. is_candidate y as_of) same ∙ c in
          ground arith
      | inr miss ↦ all w x (get_cons v t versions w x found miss) c
    ],
  )

  only_cons :
      (v : String) (t : Fields) (versions : Versions) (ts : List Fields)
      → Distinct ((v, t) ∷ versions)
      → IsCandidate t as_of
      → ((x : Fields)
          → Memᴰ x ts
          → IsCandidate x as_of × ((w : String) × (Dict.get versions w ≡ some x)))
      → (x : Fields) → Memᴰ x (t ∷ ts)
      → IsCandidate x as_of × ((w : String) × (Dict.get ((v, t) ∷ versions) w ≡ some x))
  only_cons v t versions ts d chosen only x (Memᴰ.head e) =
      (rw e chosen, (v, get_head v t versions ∙ ap some (sym e)))
  only_cons v t versions ts d chosen only x (Memᴰ.tail m) =
      let (c, (w, found)) = only x m in (c, (w, get_tail v t versions d w x found))

  Picks-keep :
      (v : String) (t : Fields) (versions : Versions) (ts : List Fields) (k : Version)
      → Distinct ((v, t) ∷ versions)
      → key_of t ≡ passed k
      → IsCandidate t as_of
      → Picks versions as_of ts
      → Picks ((v, t) ∷ versions) as_of (t ∷ ts)
  Picks-keep v t versions ts k d has_key chosen (keyed, only, all) = (
    ((k, has_key), keyed),
    only_cons v t versions ts d chosen only,
    λ w x found c. elim (Bool-cases (v == w)) [
      | inl hit ↦ Memᴰ.head (sym (get_own v t versions w x found hit))
      | inr miss ↦ Memᴰ.tail (all w x (get_cons v t versions w x found miss) c)
    ],
  )

  -- The candidates are read without an error, and are the active versions in their windows.
  pub candidates-Picks :
      (versions : Versions)
      → AllEntries versions
      → (ts : List Fields) × (candidates versions as_of ≡ passed ts) × Picks versions as_of ts
  unfolding candidates
  candidates-Picks [] all =
      ([], refl, (tt, (λ t m. elim m [ ]), λ v t found c. absurd (nothing v t found)))
  candidates-Picks ((v, t) ∷ versions) all =
      let (ts, rest, picks) = candidates-Picks versions (AllEntries-tail v t versions all) in
      let (k, number, has_key, readable) = all.1 v t (get_head v t versions) in
      let (b, reads) = readable as_of in
      let (c, chosen) = is_candidate-passed t as_of b reads in
      elim (Bool-cases c) [
        | inl kept ↦
            let is : is_candidate t as_of ≡ passed true = chosen ∙ ap passed kept in
            (t ∷ ts, rw (is, rest) refl, Picks-keep v t versions ts k all.0 has_key is picks)
        | inr skipped ↦
            let is : is_candidate t as_of ≡ passed false = chosen ∙ ap passed skipped in
            (ts, rw (is, rest) refl, Picks-skip v t versions ts all.0 is picks)
      ]
