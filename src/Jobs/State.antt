-- ===== src/Jobs/State.antt =====
-- The state of `JobQueue` (services/api/job_queue.py), what it asks of its durable store, and the
-- writes to its tables from which the methods are put together.
use veri_doc.Prelude.{
  ℕ, String, Bool, ◌&&◌, not, List, [], ◌∷◌, ◌++◌, Option, none, some, if◌then◌else◌,
}
use veri_doc.Prelude.Int.{ℤ, pos, ◌+ℤ◌}
use veri_doc.Prelude.Dict
use veri_doc.Prelude.Dict.{Dict, values}
use veri_doc.Prelude.Lists.{any, add_once, discard, remove_first}
use veri_doc.Jobs.Record.{
  JobRecord, is_terminal, is_running, is_high_quality, Error, Result, ok, err, value_error,
}
use veri_doc.Jobs.Exec.{Exec}

-- `_persist` and `_delete_persisted` over the database and the artifact files. `Related` is the
-- type of the `persist_related` callbacks, which write to the same transaction. `none` is success.
pub record Persistence : Type 1 where
  pub Store : Type 0
  pub Related : Type 0
  pub save : JobRecord → Option ℤ → Option Related → Store → Option Error × Store
  pub delete : String → Store → Option Error × Store

pub record JobQueue (Store : Type 0) : Type 0 where
  pub max_attempts : ℕ
  pub jobs : Dict JobRecord
  pub idempotency_index : Dict String
  pub pending_job_ids : List String
  pub pending_sequences : Dict ℤ
  pub next_pending_sequence : ℤ
  pub unpublished_job_ids : List String
  pub store : Store

module _ {Store : Type 0} where
  unfoldable pub has_active_high_quality_job : JobQueue Store → Bool
  has_active_high_quality_job q =
      any (λ job. is_high_quality job && not (is_terminal job.status)) (values q.jobs)

  unfoldable pub has_running_high_quality_job : JobQueue Store → Bool
  has_running_high_quality_job q =
      any (λ job. is_high_quality job && is_running job.status) (values q.jobs)

  -- self._jobs[job.job_id] = job
  unfoldable pub put_job : JobRecord → JobQueue Store → JobQueue Store
  put_job job q = record q { jobs = Dict.put q.jobs job.job_id job }

  -- self._jobs[...] = job and self._idempotency_index[...] = job.job_id
  unfoldable pub register : JobRecord → Bool → JobQueue Store → JobQueue Store
  register job publish q = record q {
    jobs = Dict.put q.jobs job.job_id job;
    idempotency_index = Dict.put q.idempotency_index job.idempotency_key job.job_id;
    unpublished_job_ids =
        if publish then q.unpublished_job_ids else add_once q.unpublished_job_ids job.job_id;
  }

  -- self._unpublished_job_ids.discard(job_id)
  unfoldable pub mark_published : String → JobQueue Store → JobQueue Store
  mark_published job_id q = record q { unpublished_job_ids = discard q.unpublished_job_ids job_id }

  -- Taking a job out of the pending deque and of its sequence table.
  unfoldable pub drop_pending : String → JobQueue Store → JobQueue Store
  drop_pending job_id q = record q {
    pending_job_ids = remove_first q.pending_job_ids job_id;
    pending_sequences = Dict.remove q.pending_sequences job_id;
  }

  -- The deletions of `discard_queued_job`.
  unfoldable pub forget_job : JobRecord → String → JobQueue Store → JobQueue Store
  unfolding drop_pending mark_published
  forget_job job job_id q = drop_pending job_id (
      mark_published job_id (record q {
        jobs = Dict.remove q.jobs job_id;
        idempotency_index = Dict.remove q.idempotency_index job.idempotency_key;
      }))

  unfoldable pub push_pending : String → ℤ → JobQueue Store → JobQueue Store
  push_pending job_id sequence q = record q {
    pending_job_ids = q.pending_job_ids ++ job_id ∷ [];
    pending_sequences = Dict.put q.pending_sequences job_id sequence;
  }

  -- `_append_pending`
  unfoldable pub append_pending : String → Option ℤ → Exec (JobQueue Store) Unit
  unfolding push_pending
  append_pending job_id none q = (err (value_error "pending jobs require a queue sequence"), q)
  append_pending job_id (some sequence) q = (ok tt, push_pending job_id sequence q)

  -- `_allocate_pending_sequence`
  unfoldable pub allocate_pending_sequence : Exec (JobQueue Store) ℤ
  allocate_pending_sequence q = (
    ok q.next_pending_sequence,
    record q { next_pending_sequence = q.next_pending_sequence +ℤ pos 1 },
  )

abbrev pub saved : Option Error → Result (Unit {0})
saved none = ok tt
saved (some e) = err e

module _ (P : Persistence) where
  -- `_persist`
  unfoldable pub persist : JobRecord → Option ℤ → Option P.Related → Exec (JobQueue P.Store) Unit
  persist job sequence related q =
      let r = P.save job sequence related q.store in (saved r.0, record q { store = r.1 })

  -- `_delete_persisted`
  unfoldable pub delete_persisted : String → Exec (JobQueue P.Store) Unit
  delete_persisted job_id q =
      let r = P.delete job_id q.store in (saved r.0, record q { store = r.1 })
