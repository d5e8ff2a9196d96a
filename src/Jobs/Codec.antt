-- ===== src/Jobs/Codec.antt =====
-- How the durable queue writes the value of a job and reads it back (services/api/job_queue.py):
-- byte strings go to the file store and leave references, the rest becomes JSON. The JSON text
-- itself and base64 belong to Python's library; base64 is a parameter, which no theorem needs.
pub mod RoundTrip
pub mod Job
pub mod JobRoundTrip
mod Tests
use veri_doc.Prelude.{
  ℕ, String, Bool, true, false, ◌||◌, List, [], ◌∷◌, Option, none, some, ◌==◌, if◌then◌else◌,
}
use veri_doc.Prelude.Dict
use veri_doc.Prelude.Dict.{Dict}
use veri_doc.Prelude.Lists.{length, contains}
use veri_doc.Py.Decimal.{decimal}
use veri_doc.Py.Value.{
  Value, Items, Fields, null, bool, int, float, str, bytes, list, tuple, dict, artifact, nil, cons,
  end, field,
}
use veri_doc.Jobs.Record.{Result, ok, err, value_error}

-- _BYTES_MARKER, _DICT_MARKER and _ARTIFACT_MARKER
abbrev pub bytes_marker : String
bytes_marker = "__veridoc_job_queue_bytes__"

abbrev pub dict_marker : String
dict_marker = "__veridoc_job_queue_dict__"

abbrev pub artifact_marker : String
artifact_marker = "__veridoc_job_queue_artifact__"

-- The byte strings found so far, by their ids.
abbrev pub Artifacts : Type 0
Artifacts = Dict (List ℕ)

-- The inner `project` of `_extract_binary_artifacts`, with the dict that it fills.
unfoldable mutual
  pub project : Value → Artifacts → Value × Artifacts
  project (bytes content) found =
      (artifact (decimal (length found)), Dict.put found (decimal (length found)) content)
  project (dict fs) found = let r = project_fields fs found in (dict r.0, r.1)
  project (list xs) found = let r = project_items xs found in (list r.0, r.1)
  project (tuple xs) found = let r = project_items xs found in (list r.0, r.1)
  project v found = (v, found)

  pub project_items : Items → Artifacts → Items × Artifacts
  project_items nil found = (nil, found)
  project_items (cons x xs) found =
      let r = project x found in let rest = project_items xs r.1 in (cons r.0 rest.0, rest.1)

  pub project_fields : Fields → Artifacts → Fields × Artifacts
  project_fields end found = (end, found)
  project_fields (field k v fs) found =
      let r = project v found in let rest = project_fields fs r.1 in (field k r.0 rest.0, rest.1)

-- `_extract_binary_artifacts`
unfoldable pub extract_binary_artifacts : Value → Value × Artifacts
extract_binary_artifacts v = project v []

-- The constructor of a container around what became of its parts.
abbrev pub wrap {ℓ} : {A B : Type ℓ} → (A → B) → Result A → Result B
wrap f (ok a) = ok (f a)
wrap f (err e) = err e

abbrev pub both {ℓ} : {A B C : Type ℓ} → (A → B → C) → Result A → Result B → Result C
both f (ok a) (ok b) = ok (f a b)
both f (ok a) (err e) = err e
both f (err e) b = err e

abbrev pub found_or : Option (List ℕ) → Result Value
found_or none = err (value_error "persisted job artifact is missing")
found_or (some content) = ok (bytes content)

-- `_restore_binary_artifacts`
unfoldable mutual
  pub restore_binary_artifacts : Value → Artifacts → Result Value
  restore_binary_artifacts (artifact id) artifacts = found_or (Dict.get artifacts id)
  restore_binary_artifacts (dict fs) artifacts = wrap dict (restore_fields fs artifacts)
  restore_binary_artifacts (list xs) artifacts = wrap list (restore_items xs artifacts)
  restore_binary_artifacts v artifacts = ok v

  pub restore_items : Items → Artifacts → Result Items
  restore_items nil artifacts = ok nil
  restore_items (cons x xs) artifacts =
      both cons (restore_binary_artifacts x artifacts) (restore_items xs artifacts)

  pub restore_fields : Fields → Artifacts → Result Fields
  restore_fields end artifacts = ok end
  restore_fields (field k v fs) artifacts =
      both (field k) (restore_binary_artifacts v artifacts) (restore_fields fs artifacts)

module _ (b64encode : List ℕ → String) where
  -- `_encode_persisted_value`
  unfoldable mutual
    pub encode_persisted_value : Value → Value
    encode_persisted_value (artifact id) = dict (field artifact_marker (str id) end)
    encode_persisted_value (bytes content) = dict (field bytes_marker (str (b64encode content)) end)
    encode_persisted_value (dict fs) = dict (field dict_marker (list (encode_fields fs)) end)
    encode_persisted_value (list xs) = list (encode_items xs)
    encode_persisted_value (tuple xs) = list (encode_items xs)
    encode_persisted_value v = v

    pub encode_items : Items → Items
    encode_items nil = nil
    encode_items (cons x xs) = cons (encode_persisted_value x) (encode_items xs)

    pub encode_fields : Fields → Items
    encode_fields end = nil
    encode_fields (field k v fs) =
        cons (list (cons (str k) (cons (encode_persisted_value v) nil))) (encode_fields fs)

decoded_artifact : Value → Result Value
decoded_artifact (str id) = ok (artifact id)
decoded_artifact _ = err (value_error "invalid persisted artifact reference")

abbrev bytes_or : Option (List ℕ) → Result Value
bytes_or none = err (value_error "invalid persisted byte payload")
bytes_or (some content) = ok (bytes content)

module _ (b64decode : String → Option (List ℕ)) where
  decoded_bytes : Value → Result Value
  decoded_bytes (str encoded) = bytes_or (b64decode encoded)
  decoded_bytes _ = err (value_error "invalid persisted byte payload")

  -- `_decode_persisted_value`
  unfoldable mutual
    unfolding decoded_artifact decoded_bytes

    pub decode_persisted_value : Value → Result Value
    decode_persisted_value (dict end) = ok (dict end)
    decode_persisted_value (dict (field k v end)) =
        let entries = decode_payload v in
        let plain = decode_fields (field k v end) in
        if k == artifact_marker
        then decoded_artifact v
        else if k == bytes_marker
        then decoded_bytes v
        else if k == dict_marker
        then entries
        else wrap dict plain
    decode_persisted_value (dict (field k v (field j w fs))) =
        wrap dict (decode_fields (field k v (field j w fs)))
    decode_persisted_value (list xs) = wrap list (decode_items xs)
    decode_persisted_value v = ok v

    pub decode_items : Items → Result Items
    decode_items nil = ok nil
    decode_items (cons x xs) = both cons (decode_persisted_value x) (decode_items xs)

    pub decode_fields : Fields → Result Fields
    decode_fields end = ok end
    decode_fields (field k v fs) = both (field k) (decode_persisted_value v) (decode_fields fs)

    pub decode_payload : Value → Result Value
    decode_payload (list items) = wrap dict (decode_entries [] items)
    decode_payload _ = err (value_error "invalid persisted dictionary payload")

    -- `seen` are the keys of the dict so far.
    pub decode_entries : List String → Items → Result Fields
    decode_entries seen nil = ok end
    decode_entries seen (cons (list (cons (str k) (cons v nil))) rest) =
        let more = both (field k) (decode_persisted_value v) (decode_entries (k ∷ seen) rest) in
        if contains seen k then err (value_error "invalid persisted dictionary payload") else more
    decode_entries seen (cons _ rest) = err (value_error "invalid persisted dictionary payload")
