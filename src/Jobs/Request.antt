-- ===== src/Jobs/Request.antt =====
-- The normalisation of a job request and the comparison of a request with the job that its
-- idempotency key is bound to (the module functions of services/api/job_queue.py).
use veri_doc.Prelude.{
  ℕ, String, Bool, true, false, ◌&&◌, ◌||◌, List, Option, none, some, ◌==◌, if◌then◌else◌,
}
use veri_doc.Py.Value.{Value, Fields, null, str, bytes, dict, get, py_eq}
use veri_doc.Py.Text.{strip, is_blank}
use veri_doc.Jobs.Record.{Result, ok, err, value_error}

pub record JobRequest : Type 0 where
  pub idempotency_key : String
  pub filename : String
  pub mode : String
  pub source : Option Fields
  pub template : Option Fields
  pub request_parameters : Option Fields

-- `_normalize_job_request`, on the three texts of a request.
unfoldable pub normalize_job_request : JobRequest → Result JobRequest
normalize_job_request r =
    if is_blank r.idempotency_key
    then err (value_error "idempotency_key is required")
    else if is_blank r.filename
    then err (value_error "filename is required")
    else if r.mode == "standard" || r.mode == "high_quality"
    then ok (record r { idempotency_key = strip r.idempotency_key; filename = strip r.filename })
    else err (value_error "unsupported job mode")

-- a == b for two optional dicts
unfoldable pub same_fields : Option Fields → Option Fields → Bool
same_fields none none = true
same_fields (some a) (some b) = py_eq (dict a) (dict b)
same_fields _ _ = false

module _ (sha256 : List ℕ → String) where
  -- A stored source without its bytes is matched by the digest of the requested bytes.
  unfoldable pub same_content : Fields → Value → Value → Bool
  same_content existing null (bytes content) = py_eq (get existing "sha256") (str (sha256 content))
  same_content existing stored requested = py_eq stored requested

  unfoldable pub same_source_binding : Option Fields → Option Fields → Bool
  unfolding same_content
  same_source_binding none none = true
  same_source_binding (some existing) (some requested) =
      py_eq (get existing "sha256") (get requested "sha256")
      && py_eq (get existing "size_bytes") (get requested "size_bytes")
      && py_eq (get existing "content_type") (get requested "content_type")
      && same_content existing (get existing "content") (get requested "content")
  same_source_binding _ _ = false

-- isinstance(v, str) and v.strip()
unfoldable pub template_id_text : Value → Option String
template_id_text (str s) = if is_blank s then none else some s
template_id_text _ = none

abbrev pub by_template_id : Option String → Option String → Bool → Bool
by_template_id (some a) (some b) same = a == b
by_template_id _ _ same = same

unfoldable pub same_template_binding : Option Fields → Option Fields → Bool
unfolding template_id_text
same_template_binding none none = true
same_template_binding (some existing) (some requested) =
    by_template_id (template_id_text (get existing "template_id"))
      (template_id_text (get requested "template_id")) (py_eq (dict existing) (dict requested))
same_template_binding _ _ = false
