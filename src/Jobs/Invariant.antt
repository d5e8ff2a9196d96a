-- ===== src/Jobs/Invariant.antt =====
-- What holds of the tables of `JobQueue` (services/api/job_queue.py) between two methods.
pub mod Order
pub mod Tables
pub mod Removal
pub mod Head
pub mod Change
pub mod Methods
pub mod Creation
use veri_doc.Prelude.{String, ◌≡◌, Bool, true, false, ◌&&◌, not, List, [], ◌∷◌, Option, none, some}
use veri_doc.Prelude.Dict
use veri_doc.Prelude.Dict.{Distinct, is_some}
use veri_doc.Prelude.Lists.{contains}
use veri_doc.Jobs.Record.{JobRecord, JobStatus, queued, is_terminal, is_high_quality}
use veri_doc.Jobs.State.{JobQueue}
use Order.{Ascending, AllBefore}

abbrev pub status_of : Option JobRecord → Option JobStatus
status_of none = none
status_of (some job) = some job.status

abbrev pub key_of : Option JobRecord → Option String
key_of none = none
key_of (some job) = some job.idempotency_key

abbrev pub is_active : JobRecord → Bool
is_active job = is_high_quality job && not (is_terminal job.status)

pub record Inv {Store : Type 0} (q : JobQueue Store) : Type 0 where
  pub distinct : Distinct q.jobs
  -- A job stands under its own id, and its idempotency key leads back to it.
  pub keyed : (id : String) (job : JobRecord) → Dict.get q.jobs id ≡ some job → job.job_id ≡ id
  pub indexed :
      (id : String) (job : JobRecord)
      → Dict.get q.jobs id ≡ some job
      → Dict.get q.idempotency_index job.idempotency_key ≡ some id
  pub bound :
      (key id : String)
      → Dict.get q.idempotency_index key ≡ some id
      → key_of (Dict.get q.jobs id) ≡ some key
  -- What is pending is queued and published; what is unpublished is queued.
  pub pending_queued :
      (id : String)
      → contains q.pending_job_ids id ≡ true
      → status_of (Dict.get q.jobs id) ≡ some queued
  pub pending_public :
      (id : String)
      → contains q.pending_job_ids id ≡ true
      → contains q.unpublished_job_ids id ≡ false
  pub unpublished_queued :
      (id : String)
      → contains q.unpublished_job_ids id ≡ true
      → status_of (Dict.get q.jobs id) ≡ some queued
  -- The deque and the sequence table hold the same jobs, in the order of their sequences.
  pub sequenced :
      (id : String) → contains q.pending_job_ids id ≡ is_some (Dict.get q.pending_sequences id)
  pub ascending : Ascending q.pending_sequences q.pending_job_ids
  pub before_next : AllBefore q.pending_sequences q.next_pending_sequence q.pending_job_ids
  -- At most one high-quality job is queued or running.
  pub single_high_quality :
      (i j : String) (a b : JobRecord)
      → Dict.get q.jobs i ≡ some a
      → Dict.get q.jobs j ≡ some b
      → is_active a ≡ true
      → is_active b ≡ true
      → i ≡ j
