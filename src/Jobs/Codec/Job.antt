-- ===== src/Jobs/Codec/Job.antt =====
-- How a job of the durable queue becomes a row and comes back (services/api/job_queue.py): the record
-- as JSON, and the contents of its artifact files beside it.
use veri_doc.Prelude.{ℕ, String, ◌≡◌, refl, Bool, Option, none, some, ◌==◌, if◌then◌else◌}
use veri_doc.Prelude.Int.{pos}
use veri_doc.Py.Value.{Value, Fields, null, bool, int, str, dict, end, field, get}
use veri_doc.Py.Base64.{b64encode, b64decode}
use veri_doc.Jobs.Record.{
  JobRecord, JobStatus, queued, running, succeeded, failed, Result, ok, err, value_error,
  external_error,
}
use veri_doc.Jobs.Codec.{
  Artifacts, extract_binary_artifacts, restore_binary_artifacts, encode_persisted_value,
  decode_persisted_value, both,
}

-- The columns idempotency_key and record_json, and the job's rows of job_queue_artifacts with the
-- contents of their files.
pub record PersistedJob : Type 0 where
  pub idempotency_key : String
  pub record_json : Value
  pub artifacts : Artifacts

abbrev pub status_text : JobStatus → String
status_text queued = "queued"
status_text running = "running"
status_text succeeded = "succeeded"
status_text failed = "failed"

abbrev pub dict_or_none : Option Fields → Value
dict_or_none none = null
dict_or_none (some fs) = dict fs

abbrev pub text_or_none : Option String → Value
text_or_none none = null
text_or_none (some s) = str s

-- `JobRecord.to_dict`
unfoldable pub to_dict : JobRecord → Fields
to_dict job = field "job_id" (str job.job_id) (
    field "idempotency_key" (str job.idempotency_key) (
      field "filename" (str job.filename) (
        field "mode" (str job.mode) (
          field "status" (str (status_text job.status)) (
            field "source" (dict_or_none job.source) (
              field "template" (dict_or_none job.template) (
                field "request_parameters" (dict_or_none job.request_parameters) (
                  field "attempts" (int (pos job.attempts)) (
                    field "result" (dict_or_none job.result) (
                      field "error" (text_or_none job.error) (
                        field "retryable" (bool job.retryable) (
                          field "created_at" (str job.created_at)
                            (field "updated_at" (str job.updated_at) end)))))))))))))

-- What `_persist` writes of a job.
unfoldable pub encode_job : JobRecord → PersistedJob
encode_job job =
    let extracted = extract_binary_artifacts (dict (to_dict job)) in
    record {
      idempotency_key = job.idempotency_key;
      record_json = encode_persisted_value b64encode extracted.0;
      artifacts = extracted.1;
    }

pub encode_job-key : (job : JobRecord) → (encode_job job).idempotency_key ≡ job.idempotency_key
unfolding encode_job
encode_job-key job = refl

abbrev mistyped : {A : Type 0} → Result A
mistyped = err (external_error "TypeError")

abbrev text : Value → Result String
text (str s) = ok s
text _ = mistyped

abbrev pub optional_text : Value → Result (Option String)
optional_text null = ok none
optional_text (str s) = ok (some s)
optional_text _ = mistyped

abbrev pub optional_dict : Value → Result (Option Fields)
optional_dict null = ok none
optional_dict (dict fs) = ok (some fs)
optional_dict _ = mistyped

abbrev number : Value → Result ℕ
number (int (pos n)) = ok n
number _ = mistyped

abbrev truth : Value → Result Bool
truth (bool b) = ok b
truth _ = mistyped

abbrev pub status_from : Value → Result JobStatus
status_from (str s) =
    if s == "queued"
    then ok queued
    else if s == "running"
    then ok running
    else if s == "succeeded"
    then ok succeeded
    else if s == "failed"
    then ok failed
    else err (value_error "unsupported persisted job status")
status_from _ = mistyped

new_record :
    String
    → String
    → String
    → String
    → JobStatus
    → Option Fields
    → Option Fields
    → Option Fields
    → ℕ
    → Option Fields
    → Option String
    → Bool
    → String
    → String
    → JobRecord
new_record id key filename mode status source template parameters attempts result error retryable
      created updated =
    record {
      job_id = id;
      idempotency_key = key;
      filename = filename;
      mode = mode;
      status = status;
      source = source;
      template = template;
      request_parameters = parameters;
      attempts = attempts;
      result = result;
      error = error;
      retryable = retryable;
      created_at = created;
      updated_at = updated;
    }

infixl 6 ◌<*>◌
abbrev ◌<*>◌ : {A B : Type 0} → Result (A → B) → Result A → Result B
f <*> a = both (λ g x. g x) f a

-- JobRecord(**values), with the test of the status. Rows are what `_persist` writes: a field that is
-- missing or of another type is refused here, where Python may take it.
unfoldable pub job_from : Value → Result JobRecord
unfolding new_record
job_from (dict fs) =
    ok new_record
    <*> text (get fs "job_id")
    <*> text (get fs "idempotency_key")
    <*> text (get fs "filename")
    <*> text (get fs "mode")
    <*> status_from (get fs "status")
    <*> optional_dict (get fs "source")
    <*> optional_dict (get fs "template")
    <*> optional_dict (get fs "request_parameters")
    <*> number (get fs "attempts")
    <*> optional_dict (get fs "result")
    <*> optional_text (get fs "error")
    <*> truth (get fs "retryable")
    <*> text (get fs "created_at")
    <*> text (get fs "updated_at")
job_from _ = mistyped

abbrev pub and_then : {A B : Type 0} → Result A → (A → Result B) → Result B
and_then (ok a) f = f a
and_then (err e) f = err e

-- What `_restore_jobs` reads of a row.
unfoldable pub decode_job : PersistedJob → Result JobRecord
decode_job p =
    and_then (decode_persisted_value b64decode p.record_json)
      λ values. and_then (restore_binary_artifacts values p.artifacts) job_from
