-- ===== src/Jobs/Codec/RoundTrip.antt =====
-- The values that the durable queue writes and reads back (services/api/job_queue.py).
use veri_doc.Prelude.{
  ℕ, suc, ◌≤◌, ◌<◌, String, ◌≡◌, refl, true, false, List, [], ◌∷◌, Option, none, some, ◌==◌, arith,
  eq_iff, eq_refl, ◌∙◌, Bool-cases, inl, inr,
}
use veri_doc.Prelude.Dict
use veri_doc.Prelude.Dict.{Dict, get-put}
use veri_doc.Prelude.Lists.{length, contains}
use veri_doc.Py.Decimal.{decimal, decimal-injective}
use veri_doc.Py.Value.{
  Value, Items, Fields, null, bool, int, float, str, bytes, list, tuple, dict, artifact, nil, cons,
  end, field, has,
}
use veri_doc.Jobs.Record.{ok}
use veri_doc.Jobs.Codec.{
  Artifacts, project, project_items, project_fields, extract_binary_artifacts,
  restore_binary_artifacts, restore_items, restore_fields, encode_persisted_value, encode_items,
  encode_fields, decode_persisted_value, decode_items, decode_entries,
}

-- A value without references of the queue's own, whose dicts name no key twice.
abbrev mutual
  pub IsProper : Value → Type 0
  IsProper (artifact _) = ⊥
  IsProper (list xs) = IsProperItems xs
  IsProper (tuple xs) = IsProperItems xs
  IsProper (dict fs) = IsProperFields fs
  IsProper _ = Unit

  pub IsProperItems : Items → Type 0
  IsProperItems nil = Unit
  IsProperItems (cons x xs) = IsProper x × IsProperItems xs

  pub IsProperFields : Fields → Type 0
  IsProperFields end = Unit
  IsProperFields (field k v fs) = (has fs k ≡ false) × IsProper v × IsProperFields fs

-- What is left of a value once its byte strings are references.
abbrev mutual
  IsStored : Value → Type 0
  IsStored (bytes _) = ⊥
  IsStored (tuple _) = ⊥
  IsStored (list xs) = IsStoredItems xs
  IsStored (dict fs) = IsStoredFields fs
  IsStored _ = Unit

  IsStoredItems : Items → Type 0
  IsStoredItems nil = Unit
  IsStoredItems (cons x xs) = IsStored x × IsStoredItems xs

  IsStoredFields : Fields → Type 0
  IsStoredFields end = Unit
  IsStoredFields (field k v fs) = (has fs k ≡ false) × IsStored v × IsStoredFields fs

-- The value with a list for each tuple, as JSON has it.
unfoldable mutual
  pub as_lists : Value → Value
  as_lists (list xs) = list (items_as_lists xs)
  as_lists (tuple xs) = list (items_as_lists xs)
  as_lists (dict fs) = dict (fields_as_lists fs)
  as_lists v = v

  pub items_as_lists : Items → Items
  items_as_lists nil = nil
  items_as_lists (cons x xs) = cons (as_lists x) (items_as_lists xs)

  pub fields_as_lists : Fields → Fields
  fields_as_lists end = end
  fields_as_lists (field k v fs) = field k (as_lists v) (fields_as_lists fs)

has-project_fields :
    (fs : Fields) (found : Artifacts) (k : String) → has (project_fields fs found).0 k ≡ has fs k
unfolding project has
has-project_fields end found k = refl
has-project_fields (field j v fs) found k = elim (Bool-cases (j == k)) [
  | inl hit ↦ rw (hit, has) refl
  | inr miss ↦ rw (miss, has) (has-project_fields fs (project v found).1 k)
]

has-head : (k : String) (v : Value) (fs : Fields) → has (field k v fs) k ≡ true
unfolding has
has-head k v fs = ground (arith, eq_refl k)

mutual
  unfolding project

  project-IsStored : (v : Value) (found : Artifacts) → IsProper v → IsStored (project v found).0
  project-IsStored null found h = tt
  project-IsStored (bool _) found h = tt
  project-IsStored (int _) found h = tt
  project-IsStored (float _) found h = tt
  project-IsStored (str _) found h = tt
  project-IsStored (bytes _) found h = tt
  project-IsStored (artifact _) found h = absurd h
  project-IsStored (list xs) found h = project_items-IsStored xs found h
  project-IsStored (tuple xs) found h = project_items-IsStored xs found h
  project-IsStored (dict fs) found h = project_fields-IsStored fs found h

  project_items-IsStored :
      (xs : Items) (found : Artifacts) → IsProperItems xs → IsStoredItems (project_items xs found).0
  project_items-IsStored nil found h = tt
  project_items-IsStored (cons x xs) found h =
      (project-IsStored x found h.0, project_items-IsStored xs (project x found).1 h.1)

  project_fields-IsStored :
      (fs : Fields) (found : Artifacts)
      → IsProperFields fs
      → IsStoredFields (project_fields fs found).0
  project_fields-IsStored end found h = tt
  project_fields-IsStored (field k v fs) found h = (
    has-project_fields fs (project v found).1 k ∙ h.0,
    project-IsStored v found h.1,
    project_fields-IsStored fs (project v found).1 h.2,
  )

-- None of the keys is among those that were read.
abbrev Apart : List String → Fields → Type 0
Apart seen fs = (k : String) → has fs k ≡ true → contains seen k ≡ false

Apart-field :
    (seen : List String) (k : String) (v : Value) (fs : Fields)
    → has fs k ≡ false
    → Apart seen (field k v fs)
    → Apart (k ∷ seen) fs
unfolding has contains
Apart-field seen k v fs new apart j h = ground (arith, eq_iff k j, apart j)

module _ (b64encode : List ℕ → String) (b64decode : String → Option (List ℕ)) where
  mutual
    unfolding encode_persisted_value decode_persisted_value contains

    decode-encode :
        (v : Value)
        → IsStored v
        → decode_persisted_value b64decode (encode_persisted_value b64encode v) ≡ ok v
    decode-encode null h = refl
    decode-encode (bool _) h = refl
    decode-encode (int _) h = refl
    decode-encode (float _) h = refl
    decode-encode (str _) h = refl
    decode-encode (bytes _) h = absurd h
    decode-encode (tuple _) h = absurd h
    decode-encode (artifact id) h = refl
    decode-encode (list xs) h = ground (arith, decode_items-encode xs h)
    decode-encode (dict fs) h = ground (arith, decode_entries-encode [] fs h (λ k has'. refl))

    decode_items-encode :
        (xs : Items) → IsStoredItems xs → decode_items b64decode (encode_items b64encode xs) ≡ ok xs
    decode_items-encode nil h = refl
    decode_items-encode (cons x xs) h =
        ground (arith, decode-encode x h.0, decode_items-encode xs h.1)

    decode_entries-encode :
        (seen : List String) (fs : Fields)
        → IsStoredFields fs
        → Apart seen fs
        → decode_entries b64decode seen (encode_fields b64encode fs) ≡ ok fs
    decode_entries-encode seen end h apart = refl
    decode_entries-encode seen (field k v fs) h apart =
        let new = apart k (has-head k v fs) in
        let rest = decode_entries-encode (k ∷ seen) fs h.2 (Apart-field seen k v fs h.0 apart) in
        rw (new, decode-encode v h.1, rest) refl

abbrev Extends : Artifacts → Artifacts → Type 0
Extends found more =
    (id : String) (content : List ℕ)
    → Dict.get found id ≡ some content
    → Dict.get more id ≡ some content

-- The ids that are still to be given are free.
abbrev Unused : Artifacts → Type 0
Unused found = (n : ℕ) → length found ≤ n → Dict.get found (decimal n) ≡ none

length-put :
    (d : Artifacts) (k : String) (content : List ℕ)
    → Dict.get d k ≡ none
    → length (Dict.put d k content) ≡ suc (length d)
unfolding Dict.get Dict.put
length-put [] k content h = refl
length-put ((j, c) ∷ d) k content h = ground (arith, length-put d k content)

none_yet : (n : ℕ) → Dict.get {V = List ℕ} [] (decimal n) ≡ none
unfolding Dict.get
none_yet n = refl

-- `more` has the byte strings of `found`, and what `restores` needs.
record Projected (found more : Artifacts) (restores : Artifacts → Type 0) : Type 0 where
  unused : Unused more
  extends : Extends found more
  restored : (all' : Artifacts) → Extends more all' → restores all'

untouched :
    (found : Artifacts) (restores : Artifacts → Type 0)
    → Unused found
    → ((all' : Artifacts) → restores all')
    → Projected found found restores
untouched found restores h same = record {
  unused = h;
  extends = λ id content e. e;
  restored = λ all' e. same all';
}

different : (m n : ℕ) → m < n → (decimal m == decimal n) ≡ false
different m n h = elim (Bool-cases (decimal m == decimal n)) [
  | inl same ↦
      let e : m ≡ n = decimal-injective m n ((eq_iff (decimal m) (decimal n)).0 same) in
      absurd (omega (arith, e))
  | inr other ↦ other
]

put_bytes :
    (found : Artifacts) (content : List ℕ)
    → Unused found
    → Projected found
        (Dict.put found (decimal (length found)) content)
        (λ all'. Dict.get all' (decimal (length found)) ≡ some content)
put_bytes found content h =
    let id = decimal (length found) in
    let free = h (length found) (omega arith) in
    record {
      unused = λ n past.
          let size = length-put found id content free in
          ground (
            arith,
            get-put found id (decimal n) content,
            different (length found) n (omega (arith, size)),
            h n (omega (arith, size)),
          );
      extends = λ k c e. ground (arith, get-put found id k content, eq_iff id k);
      restored = λ all' e. e id content (ground (arith, get-put found id id content, eq_refl id));
    }

-- One part after another.
both_parts :
    (a b c : Artifacts) (R S T : Artifacts → Type 0)
    → Projected a b R
    → Projected b c S
    → ((all' : Artifacts) → R all' → S all' → T all')
    → Projected a c T
both_parts a b c R S T first second join = record {
  unused = second.unused;
  extends = λ k x e. second.extends k x (first.extends k x e);
  restored = λ all' e.
      join all' (first.restored all' (λ k x found. e k x (second.extends k x found)))
        (second.restored all' e);
}

as_part :
    (a b : Artifacts) (R S : Artifacts → Type 0)
    → Projected a b R
    → ((all' : Artifacts) → R all' → S all')
    → Projected a b S
as_part a b R S p turn = record {
  unused = p.unused;
  extends = p.extends;
  restored = λ all' e. turn all' (p.restored all' e);
}

abbrev Restores : Value → Value → Artifacts → Type 0
Restores w v all' = restore_binary_artifacts w all' ≡ ok (as_lists v)

abbrev RestoresItems : Items → Items → Artifacts → Type 0
RestoresItems ws xs all' = restore_items ws all' ≡ ok (items_as_lists xs)

abbrev RestoresFields : Fields → Fields → Artifacts → Type 0
RestoresFields ws fs all' = restore_fields ws all' ≡ ok (fields_as_lists fs)

mutual
  unfolding project restore_binary_artifacts as_lists

  project-Restores :
      (v : Value) (found : Artifacts)
      → IsProper v
      → Unused found
      → Projected found (project v found).1 (Restores (project v found).0 v)
  project-Restores null found h u = untouched found _ u (λ all'. refl)
  project-Restores (bool _) found h u = untouched found _ u (λ all'. refl)
  project-Restores (int _) found h u = untouched found _ u (λ all'. refl)
  project-Restores (float _) found h u = untouched found _ u (λ all'. refl)
  project-Restores (str _) found h u = untouched found _ u (λ all'. refl)
  project-Restores (artifact _) found h u = absurd h
  project-Restores (bytes content) found h u =
      as_part _ _ _ _ (put_bytes found content u) (λ all' e. rw e refl)
  project-Restores (list xs) found h u =
      as_part _ _ _ _ (project_items-Restores xs found h u) (λ all' e. rw e refl)
  project-Restores (tuple xs) found h u =
      as_part _ _ _ _ (project_items-Restores xs found h u) (λ all' e. rw e refl)
  project-Restores (dict fs) found h u =
      as_part _ _ _ _ (project_fields-Restores fs found h u) (λ all' e. rw e refl)

  project_items-Restores :
      (xs : Items) (found : Artifacts)
      → IsProperItems xs
      → Unused found
      → Projected found (project_items xs found).1 (RestoresItems (project_items xs found).0 xs)
  project_items-Restores nil found h u = untouched found _ u (λ all'. refl)
  project_items-Restores (cons x xs) found h u =
      let first = project-Restores x found h.0 u in
      both_parts _ _ _ _ _ _ first (project_items-Restores xs (project x found).1 h.1 first.unused)
        (λ all' e e'. rw (e, e') refl)

  project_fields-Restores :
      (fs : Fields) (found : Artifacts)
      → IsProperFields fs
      → Unused found
      → Projected found (project_fields fs found).1 (RestoresFields (project_fields fs found).0 fs)
  project_fields-Restores end found h u = untouched found _ u (λ all'. refl)
  project_fields-Restores (field k v fs) found h u =
      let first = project-Restores v found h.1 u in
      both_parts _ _ _ _ _ _ first (project_fields-Restores fs (project v found).1 h.2 first.unused)
        (λ all' e e'. rw (e, e') refl)

-- For a value without references of the queue and whose dicts name no key twice, decoding the
-- encoded value gives the value with its references back, and restoring its byte strings from
-- those that were extracted gives the value itself, with a list for each tuple.
pub decode_persisted_value-encode_persisted_value :
    (b64encode : List ℕ → String) (b64decode : String → Option (List ℕ)) (v : Value)
    → IsProper v
    → (decode_persisted_value b64decode
          (encode_persisted_value b64encode (extract_binary_artifacts v).0)
        ≡ ok (extract_binary_artifacts v).0)
      × (restore_binary_artifacts (extract_binary_artifacts v).0 (extract_binary_artifacts v).1
          ≡ ok (as_lists v))
unfolding extract_binary_artifacts
decode_persisted_value-encode_persisted_value b64encode b64decode v h =
    let p = project-Restores v [] h (λ n past. none_yet n) in
    (
      decode-encode b64encode b64decode (project v []).0 (project-IsStored v [] h),
      p.restored (project v []).1 (λ k x e. e),
    )
