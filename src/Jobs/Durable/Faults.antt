-- ===== src/Jobs/Durable/Faults.antt =====
-- A call of a durable `JobQueue` (services/api/job_queue.py) that fails after its transaction
-- committed: `_delete_persisted` removes the artifact files last, outside the transaction.
use veri_doc.Prelude.{String, ◌≡◌, refl, true, List, ◌∷◌, none, some, arith, eq_iff}
use veri_doc.Prelude.Dict
use veri_doc.Prelude.Dict.{get-remove}
use veri_doc.Jobs.Record.{JobRecord, err, external_error, is_queued}
use veri_doc.Jobs.Exec.{raise_if, ◌>>=◌}
use veri_doc.Jobs.State.{JobQueue, delete_persisted}
use veri_doc.Jobs.Queue.{discard_queued_job, discard_found}
use veri_doc.Jobs.Durable.{Database, Fault, after_commit, durable, delete_row, delete_with}

-- Where the next database call fails after its commit, discard_queued_job on a queued job raises
-- and leaves the job in memory, while its row is gone.
pub discard-forgets_row :
    (q : JobQueue Database) (id : String) (job : JobRecord) (later : List Fault)
    → Dict.get q.jobs id ≡ some job
    → is_queued job.status ≡ true
    → q.store.faults ≡ after_commit ∷ later
    → let r = discard_queued_job durable id q in
      (r.0 ≡ err (external_error "artifact cleanup"))
      × (Dict.get r.1.jobs id ≡ some job)
      × (Dict.get r.1.store.rows id ≡ none)
unfolding discard_queued_job discard_found ◌>>=◌ delete_persisted delete_row delete_with
discard-forgets_row q id job later found waits fails =
    rw (found, discard_found, waits, raise_if, fails)
      (refl, found, ground (arith, get-remove q.store.rows id id, eq_iff id id))
