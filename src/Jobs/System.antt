-- ===== src/Jobs/System.antt =====
-- The job queue over time: every call of a method, by any thread, is one step under the lock
-- (services/api/job_queue.py). A step stands for every outcome of its call, failures of the store
-- and of callbacks included; a new job's id is one that the queue has not seen.
pub mod Safety
pub mod Lifecycle
pub mod Births
pub mod Atomic
pub mod Admission
pub mod Calls
pub mod Service
pub mod Failure
pub mod Idempotent
pub mod Drain
mod Tests
use veri_doc.Prelude.{ℕ, String, ◌≡◌, Bool, List, [], Option, none}
use veri_doc.Prelude.Int.{pos}
use veri_doc.Prelude.Dict
use veri_doc.Py.Value.{Fields}
use veri_doc.Jobs.Record.{Result}
use veri_doc.Jobs.Request.{JobRequest}
use veri_doc.Jobs.State.{Persistence, JobQueue}
use veri_doc.Jobs.Queue.{
  Fresh, create_job, get_or_create_job, publish_job, enqueue_job, discard_queued_job,
}
use veri_doc.Jobs.Worker.{start_next_job, start_job, mark_succeeded, mark_failed, retry_failed_job}

-- `JobQueue.__init__`, without a database to restore
abbrev pub new_queue : {Store : Type 0} → ℕ → Store → JobQueue Store
new_queue max_attempts store = record {
  max_attempts = max_attempts;
  jobs = [];
  idempotency_index = [];
  pending_job_ids = [];
  pending_sequences = [];
  next_pending_sequence = pos 0;
  unpublished_job_ids = [];
  store = store;
}

module _ (sha256 : List ℕ → String) (P : Persistence) where
  pub data Step (q : JobQueue P.Store) : JobQueue P.Store → Type 0 where
    create :
        (fresh : Fresh) (r : JobRequest) (enqueue : Bool)
        → Dict.get q.jobs fresh.job_id ≡ none
        → Step q (create_job sha256 P fresh r enqueue q).1
    get_or_create :
        (fresh : Fresh) (r : JobRequest) (template : Option (Result (Option Fields)))
        (enqueue publish unpublished compare : Bool)
        → Dict.get q.jobs fresh.job_id ≡ none
        → Step q
            (get_or_create_job sha256 P fresh r template enqueue publish unpublished compare q).1
    publish :
        (id : String) (enqueue : Bool) (related : Option P.Related)
        → Step q (publish_job P id enqueue related q).1
    enqueue : (id : String) → Step q (enqueue_job P id q).1
    discard : (id : String) → Step q (discard_queued_job P id q).1
    start_next : (now : String) → Step q (start_next_job P now q).1
    start : (now id : String) → Step q (start_job P now id q).1
    succeed : (now id : String) (result : Fields) → Step q (mark_succeeded P now id result q).1
    fail :
        (now id error : String) (retryable : Bool)
        → Step q (mark_failed P now id error retryable q).1
    retry :
        (now id : String) (related : Option P.Related)
        → Step q (retry_failed_job P now id related q).1

  pub data Reach (q : JobQueue P.Store) : JobQueue P.Store → Type 0 where
    here : Reach q q
    next : {s t : JobQueue P.Store} → Reach q s → Step s t → Reach q t
