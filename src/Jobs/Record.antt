-- ===== src/Jobs/Record.antt =====
-- The records, errors and results of the job queue (services/api/job_queue.py).
use veri_doc.Prelude.{ℕ, String, Bool, true, false, Option, ◌==◌}
use veri_doc.Py.Value.{Fields}

pub data JobStatus : Type 0 where
  queued running succeeded failed : JobStatus

abbrev pub is_queued : JobStatus → Bool
is_queued queued = true
is_queued _ = false

abbrev pub is_running : JobStatus → Bool
is_running running = true
is_running _ = false

abbrev pub is_succeeded : JobStatus → Bool
is_succeeded succeeded = true
is_succeeded _ = false

abbrev pub is_failed : JobStatus → Bool
is_failed failed = true
is_failed _ = false

-- status in TERMINAL_STATUSES
abbrev pub is_terminal : JobStatus → Bool
is_terminal succeeded = true
is_terminal failed = true
is_terminal _ = false

pub record JobRecord : Type 0 where
  pub job_id : String
  pub idempotency_key : String
  pub filename : String
  pub mode : String
  pub status : JobStatus
  pub source : Option Fields
  pub template : Option Fields
  pub request_parameters : Option Fields
  pub attempts : ℕ
  pub result : Option Fields
  pub error : Option String
  pub retryable : Bool
  pub created_at : String
  pub updated_at : String

-- An exception with its message; a `key_error` carries the job id or the message that it names.
pub data Error : Type 0 where
  key_error value_error runtime_error : String → Error
  -- an exception of the database, the file store or a callback
  external_error : String → Error

pub data Result {ℓ} (A : Type ℓ) : Type ℓ where
  ok : A → Result A
  err : Error → Result A

abbrev pub is_high_quality : JobRecord → Bool
is_high_quality job = job.mode == "high_quality"
