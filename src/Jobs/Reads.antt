-- ===== src/Jobs/Reads.antt =====
-- The methods of `JobQueue` (services/api/job_queue.py) that only read the queue.
pub mod Served
pub mod Listed
mod Tests
use veri_doc.Prelude.{
  ℕ, String, Bool, true, false, ◌&&◌, ◌||◌, not, List, [], ◌∷◌, ◌++◌, Option, none, some, ◌==◌,
  if◌then◌else◌,
}
use veri_doc.Prelude.Dict
use veri_doc.Prelude.Dict.{values}
use veri_doc.Prelude.Lists.{contains, select}
use veri_doc.Py.Text.{is_blank}
use veri_doc.Py.Value.{Value, Fields, Items, nil, cons, str, bytes, list, dict, get, py_eq}
use veri_doc.Jobs.Record.{
  JobRecord, JobStatus, queued, running, succeeded, failed, is_succeeded, Result, ok, err,
  key_error, value_error, runtime_error,
}
use veri_doc.Jobs.Exec.{Exec, return, gets, raise_if, ◌>>=◌, ◌>>◌}
use veri_doc.Jobs.State.{JobQueue}
use veri_doc.Jobs.Queue.{find_job}

-- The four words of JOB_STATUSES.
unfoldable pub parse_status : String → Option JobStatus
parse_status s =
    if s == "queued"
    then some queued
    else if s == "running"
    then some running
    else if s == "succeeded"
    then some succeeded
    else if s == "failed"
    then some failed
    else none

unfoldable pub same_status : JobStatus → JobStatus → Bool
same_status queued queued = true
same_status running running = true
same_status succeeded succeeded = true
same_status failed failed = true
same_status _ _ = false

-- The dicts of `artifacts` whose artifact_id is the one asked for.
unfoldable pub artifacts_named : String → Items → List Fields
artifacts_named artifact_id nil = []
artifacts_named artifact_id (cons (dict fs) xs) =
    let rest = artifacts_named artifact_id xs in
    if py_eq (get fs "artifact_id") (str artifact_id) then fs ∷ rest else rest
artifacts_named artifact_id (cons x xs) = artifacts_named artifact_id xs

unfoldable pub artifacts_in : String → Value → List Fields
unfolding artifacts_named
artifacts_in artifact_id (list xs) = artifacts_named artifact_id xs
artifacts_in artifact_id v = []

unfoldable pub result_artifacts : String → Option Fields → List Fields
unfolding artifacts_in
result_artifacts artifact_id none = []
result_artifacts artifact_id (some result) = artifacts_in artifact_id (get result "artifacts")

unfoldable pub tag : JobRecord → List Fields → List (JobRecord × Fields)
tag job [] = []
tag job (fs ∷ rest) = (job, fs) ∷ tag job rest

-- The loop of `get_artifact` over the jobs.
unfoldable pub matches : List String → String → List JobRecord → List (JobRecord × Fields)
unfolding result_artifacts tag
matches hidden artifact_id [] = []
matches hidden artifact_id (job ∷ jobs) =
    (if contains hidden job.job_id || not (is_succeeded job.status)
      then []
      else tag job (result_artifacts artifact_id job.result))
    ++ matches hidden artifact_id jobs

module _ (sha256 : List ℕ → String) where
  unfoldable pub verify_artifact : Fields → Value → Value → Result Fields
  verify_artifact fs (bytes content) (str expected) =
      if sha256 content == expected
      then ok fs
      else err (value_error "artifact integrity check failed")
  verify_artifact fs _ _ = err (value_error "artifact content metadata is incomplete")

  -- `validate_job` returns for its effect alone: it may raise
  unfoldable pub check_artifact :
      (JobRecord → Result (Unit {0})) → List (JobRecord × Fields) → Result Fields
  unfolding verify_artifact
  check_artifact validate ((job, fs) ∷ []) = elim (validate job) [
    | ok _ ↦ verify_artifact fs (get fs "content") (get fs "sha256")
    | err e ↦ err e
  ]
  check_artifact validate _ = err (key_error "unknown or ambiguous artifact_id")

  -- `get_artifact`, for an artifact id that is a text
  unfoldable pub get_artifact :
      {Store : Type 0} → (JobRecord → Result (Unit {0})) → String → Exec (JobQueue Store) Fields
  unfolding check_artifact matches
  get_artifact validate artifact_id q =
      if is_blank artifact_id
      then (err (key_error "unknown artifact_id"), q)
      else (check_artifact validate (matches q.unpublished_job_ids artifact_id (values q.jobs)), q)

abbrev listed : List String → Option JobStatus → JobRecord → Bool
listed hidden none job = not (contains hidden job.job_id)
listed hidden (some status) job = not (contains hidden job.job_id) && same_status job.status status

-- One round of the loop of `wait_until_published` on the queue that it finds, with whether the
-- deadline has passed; `none` waits on the condition.
unfoldable pub wait_round : Bool → Option JobRecord → Bool → Option (Result (Option JobRecord))
wait_round hidden none late = some (ok none)
wait_round false (some job) late = some (ok (some job))
wait_round true (some job) true = some (err (runtime_error "job creation pending"))
wait_round true (some job) false = none

module _ {Store : Type 0} where
  -- `get_job`
  unfoldable pub get_job : String → Exec (JobQueue Store) JobRecord
  get_job job_id = do
    job ← find_job job_id
    hidden ← gets (λ q. contains q.unpublished_job_ids job_id)
    raise_if hidden (key_error job_id)
    return job

  unfoldable pub list_with : Option JobStatus → Exec (JobQueue Store) (List JobRecord)
  list_with status q = (ok (select (listed q.unpublished_job_ids status) (values q.jobs)), q)

  unfoldable pub list_parsed : Option JobStatus → Exec (JobQueue Store) (List JobRecord)
  unfolding list_with
  list_parsed none = λ q. (err (value_error "unsupported job status"), q)
  list_parsed (some status) = list_with (some status)

  -- `list_jobs`
  unfoldable pub list_jobs : Option String → Exec (JobQueue Store) (List JobRecord)
  unfolding list_with list_parsed parse_status
  list_jobs none = list_with none
  list_jobs (some status) = list_parsed (parse_status status)

  -- `is_pending`
  unfoldable pub is_pending : String → JobQueue Store → Bool
  is_pending job_id q = contains q.pending_job_ids job_id

  -- `is_unpublished`
  unfoldable pub is_unpublished : String → JobQueue Store → Bool
  is_unpublished job_id q = contains q.unpublished_job_ids job_id

  -- `wait_until_published`: each entry of the schedule is the queue as a wake-up finds it, and
  -- whether the deadline has passed by then. `none` is still waiting at the schedule's end.
  unfoldable pub wait_until_published :
      String → List (JobQueue Store × Bool) → Option (Result (Option JobRecord))
  unfolding wait_round is_unpublished
  wait_until_published job_id [] = none
  wait_until_published job_id ((q, late) ∷ rest) =
      elim (wait_round (is_unpublished job_id q) (Dict.get q.jobs job_id) late) [
        | some answer ↦ some answer
        | none ↦ wait_until_published job_id rest
      ]
