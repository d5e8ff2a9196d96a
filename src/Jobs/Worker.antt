-- ===== src/Jobs/Worker.antt =====
-- The methods of `JobQueue` (services/api/job_queue.py) that run jobs: claiming, success, failure
-- and retry. `now` is the reading of `_utc_now` that `_replace` makes.
use veri_doc.Prelude.{
  ◌+◌, String, Bool, true, false, ◌&&◌, not, List, [], ◌∷◌, Option, none, some, ltb,
}
use veri_doc.Prelude.Int.{ℤ}
use veri_doc.Prelude.Dict
use veri_doc.Prelude.Lists.{contains}
use veri_doc.Py.Value.{Fields}
use veri_doc.Jobs.Record.{
  JobRecord, queued, running, succeeded, failed, is_queued, is_running, is_failed, is_high_quality,
  ok, err, key_error, value_error, runtime_error,
}
use veri_doc.Jobs.Exec.{Exec, return, gets, modify, raise_if, choose, ◌>>=◌, ◌>>◌}
use veri_doc.Jobs.State.{
  Persistence, JobQueue, has_active_high_quality_job, has_running_high_quality_job, put_job,
  drop_pending, append_pending, allocate_pending_sequence, persist,
}
use veri_doc.Jobs.Queue.{find_job}

module _ (P : Persistence) where
  abbrev M : Type 0 → Type 0
  M A = Exec (JobQueue P.Store) A

  -- `_replace`, given the job with the changed fields
  unfoldable pub replace_job : String → JobRecord → Option ℤ → Option P.Related → M JobRecord
  replace_job now changed sequence related = do
    let updated = record changed { updated_at = now }
    persist P updated sequence related
    modify (put_job updated)
    return updated

  -- The common end of `start_job` and `start_next_job`.
  unfoldable pub claim : String → JobRecord → String → M JobRecord
  claim now job job_id = do
    current ← gets (λ q. Dict.get q.pending_sequences job_id)
    started ← replace_job now (record job { status = running }) current none
    modify (drop_pending job_id)
    return started

  unfoldable pub claim_head : String → JobRecord → String → M (Option JobRecord)
  unfolding claim
  claim_head now job job_id = do
    busy ← gets has_running_high_quality_job
    choose (is_high_quality job && busy) (return none)
        do started ← claim now job job_id; return (some started)

  -- The loop of `start_next_job` over the pending deque: entries that are not queued are dropped.
  unfoldable pub claim_next : String → List String → M (Option JobRecord)
  unfolding claim_head
  claim_next now [] q = (ok none, q)
  claim_next now (job_id ∷ rest) q = elim (Dict.get q.jobs job_id) [
    | none ↦ (err (key_error job_id), q)
    | some job ↦ elim (is_queued job.status) [
      | false ↦ claim_next now rest (drop_pending job_id q)
      | true ↦ claim_head now job job_id q
    ]
  ]

  -- `start_next_job`
  unfoldable pub start_next_job : String → M (Option JobRecord)
  unfolding claim_next
  start_next_job now q = claim_next now q.pending_job_ids q

  -- `start_job`
  unfoldable pub start_job : String → String → M JobRecord
  unfolding claim
  start_job now job_id = do
    job ← find_job job_id
    hidden ← gets (λ q. contains q.unpublished_job_ids job_id)
    raise_if hidden (key_error job_id)
    raise_if (not (is_queued job.status)) (value_error "job must be queued")
    busy ← gets has_running_high_quality_job
    raise_if (is_high_quality job && busy) (runtime_error "high_quality job already running")
    claim now job job_id

  -- `_require_running_job`
  require_running_job : String → M JobRecord
  require_running_job job_id = do
    job ← find_job job_id
    raise_if (not (is_running job.status)) (value_error "job must be running")
    return job

  -- `mark_succeeded`
  unfoldable pub mark_succeeded : String → String → Fields → M JobRecord
  unfolding require_running_job
  mark_succeeded now job_id result = do
    job ← require_running_job job_id
    replace_job now (record job { status = succeeded; result = some result; error = none }) none
        none

  unfoldable pub requeue : String → JobRecord → String → Option P.Related → M JobRecord
  requeue now changed job_id related = do
    sequence ← allocate_pending_sequence
    retried ← replace_job now changed (some sequence) related
    append_pending job_id (some sequence)
    return retried

  -- `mark_failed`
  unfoldable pub mark_failed : String → String → String → Bool → M JobRecord
  unfolding require_running_job requeue
  mark_failed now job_id error retryable = do
    job ← require_running_job job_id
    limit ← gets (λ q. q.max_attempts)
    let attempts = job.attempts + 1
    choose (retryable && ltb attempts limit)
        (requeue now (record job { status = queued; attempts = attempts; error = some error })
          job_id none)
        (replace_job now
          (record job {
            status = failed;
            attempts = attempts;
            error = some error;
            retryable = retryable;
          })
          none none)

  -- `retry_failed_job`
  unfoldable pub retry_failed_job : String → String → Option P.Related → M JobRecord
  unfolding requeue
  retry_failed_job now job_id related = do
    job ← find_job job_id
    raise_if (not (is_failed job.status)) (value_error "job must be failed")
    raise_if (not job.retryable) (value_error "job is not retryable")
    active ← gets has_active_high_quality_job
    raise_if (is_high_quality job && active) (runtime_error "high_quality job already active")
    requeue now (record job { status = queued; error = none }) job_id related
