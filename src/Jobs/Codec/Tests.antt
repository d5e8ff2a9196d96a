-- ===== src/Jobs/Codec/Tests.antt =====
-- A run of the durable queue's codec (services/api/job_queue.py).
use veri_doc.Prelude.{ℕ, String, ◌≡◌, refl, List, [], ◌∷◌, Option, some}
use veri_doc.Prelude.Int.{pos}
use veri_doc.Py.Value.{Value, bytes, str, int, list, tuple, dict, nil, cons, end, field, has}
use veri_doc.Jobs.Record.{ok}
use veri_doc.Jobs.Codec.{
  extract_binary_artifacts, restore_binary_artifacts, encode_persisted_value,
  decode_persisted_value,
}
use veri_doc.Jobs.Codec.RoundTrip.{
  IsProper, as_lists, decode_persisted_value-encode_persisted_value,
}

abbrev no_base64 : List ℕ → String
no_base64 content = ""

abbrev base64_of_nothing : String → Option (List ℕ)
base64_of_nothing text = some []

-- A result with an artifact's content, and a pair.
abbrev result : Value
result = dict (
    field "artifacts" (list (cons (dict (field "content" (bytes (1 ∷ 2 ∷ [])) end)) nil))
      (field "page" (tuple (cons (int (pos 1)) (cons (str "of") nil))) end))

result-IsProper : IsProper result
unfolding has
result-IsProper = (refl, ((refl, tt, tt), tt), (refl, (tt, (tt, tt)), tt))

decode_persisted_value-encode_persisted_value_example :
    (decode_persisted_value base64_of_nothing
        (encode_persisted_value no_base64 (extract_binary_artifacts result).0)
      ≡ ok (extract_binary_artifacts result).0)
    × (restore_binary_artifacts
          (extract_binary_artifacts result).0
          (extract_binary_artifacts result).1
        ≡ ok (as_lists result))
decode_persisted_value-encode_persisted_value_example =
    decode_persisted_value-encode_persisted_value no_base64 base64_of_nothing result result-IsProper
