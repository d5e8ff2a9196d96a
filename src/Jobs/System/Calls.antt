-- ===== src/Jobs/System/Calls.antt =====
-- Every call of the job queue (services/api/job_queue.py), as one step: the moves of the jobs, the
-- error that the call raises, and what an error leaves behind.
use veri_doc.Prelude.{ℕ, String, ◌≡◌, refl, List, Option, none, some, arith}
use veri_doc.Prelude.Dict
use veri_doc.Jobs.Record.{JobRecord, Error, Result, ok, err, succeeded}
use veri_doc.Jobs.State.{Persistence, JobQueue}
use veri_doc.Jobs.Queue.{
  publish_job, enqueue_job, discard_queued_job, create_job, get_or_create_job,
}
use veri_doc.Jobs.Worker.{start_job, start_next_job, mark_succeeded, mark_failed, retry_failed_job}
use veri_doc.Jobs.Invariant.{Inv}
use veri_doc.Jobs.System.{
  Step, create, get_or_create, publish, enqueue, discard, start_next, start, succeed, fail, retry,
  Reach, here, next,
}
use veri_doc.Jobs.System.Lifecycle
use veri_doc.Jobs.System.Lifecycle.{
  Move, mark_succeeded-Moved, mark_failed-Moved, retry_failed_job-Moved, start_job-Moved,
  start_next_job-Moved,
}
use veri_doc.Jobs.System.Births.{
  publish_job-Moved, enqueue_job-Moved, discard_queued_job-Moved, create_job-Moved,
  get_or_create_job-Moved,
}
use veri_doc.Jobs.System.Atomic.{
  SameTables, IsAtomic, mark_succeeded-IsAtomic, mark_failed-IsAtomic, retry_failed_job-IsAtomic,
  start_job-IsAtomic, start_next_job-IsAtomic,
}
use veri_doc.Jobs.System.Admission.{
  publish_job-IsAtomic, enqueue_job-IsAtomic, discard_queued_job-IsAtomic, create_job-IsAtomic,
  get_or_create_job-IsAtomic,
}
use veri_doc.Jobs.System.Safety.{Reach-Inv}

abbrev pub error_of : {A : Type 0} → Result A → Option Error
error_of (ok a) = none
error_of (err e) = some e

-- What atomicity says, of the error that a call raises.
error-IsAtomic :
    {A Store : Type 0} (q : JobQueue Store) (r : Result A × JobQueue Store)
    → IsAtomic q r
    → (e : Error) → error_of r.0 ≡ some e
    → SameTables q r.1
error-IsAtomic q (ok a, s) h e raised = cc
error-IsAtomic q (err e', s) h e raised = h e' refl

module _ (sha256 : List ℕ → String) (P : Persistence) where
  -- The error that the call of a step raises, if it raises one.
  abbrev pub raised : {q q' : JobQueue P.Store} → Step sha256 P q q' → Option Error
  raised {q} (create fresh r e new) = error_of (create_job sha256 P fresh r e q).0
  raised {q} (get_or_create fresh r t e p u c new) =
      error_of (get_or_create_job sha256 P fresh r t e p u c q).0
  raised {q} (publish id e related) = error_of (publish_job P id e related q).0
  raised {q} (enqueue id) = error_of (enqueue_job P id q).0
  raised {q} (discard id) = error_of (discard_queued_job P id q).0
  raised {q} (start_next now) = error_of (start_next_job P now q).0
  raised {q} (start now id) = error_of (start_job P now id q).0
  raised {q} (succeed now id result) = error_of (mark_succeeded P now id result q).0
  raised {q} (fail now id error retryable) = error_of (mark_failed P now id error retryable q).0
  raised {q} (retry now id related) = error_of (retry_failed_job P now id related q).0

  -- A call that raises, for whatever error of the request, the store or a callback, leaves the
  -- jobs, the index, the deque, the sequences and the unpublished ids of a consistent queue as
  -- they were.
  pub Step-IsAtomic :
      {q q' : JobQueue P.Store}
      → Inv q
      → (s : Step sha256 P q q') (e : Error) → raised s ≡ some e
      → SameTables q q'
  Step-IsAtomic {q} h (create fresh r e new) =
      error-IsAtomic q _ (create_job-IsAtomic sha256 P q fresh r e)
  Step-IsAtomic {q} h (get_or_create fresh r t e p u c new) =
      error-IsAtomic q _ (get_or_create_job-IsAtomic sha256 P q fresh r t e p u c)
  Step-IsAtomic {q} h (publish id e related) =
      error-IsAtomic q _ (publish_job-IsAtomic P q id e related)
  Step-IsAtomic {q} h (enqueue id) = error-IsAtomic q _ (enqueue_job-IsAtomic P q id)
  Step-IsAtomic {q} h (discard id) = error-IsAtomic q _ (discard_queued_job-IsAtomic P q id)
  Step-IsAtomic {q} h (start_next now) = error-IsAtomic q _ (start_next_job-IsAtomic P q h now)
  Step-IsAtomic {q} h (start now id) = error-IsAtomic q _ (start_job-IsAtomic P q now id)
  Step-IsAtomic {q} h (succeed now id result) =
      error-IsAtomic q _ (mark_succeeded-IsAtomic P q now id result)
  Step-IsAtomic {q} h (fail now id error retryable) =
      error-IsAtomic q _ (mark_failed-IsAtomic P q now id error retryable)
  Step-IsAtomic {q} h (retry now id related) =
      error-IsAtomic q _ (retry_failed_job-IsAtomic P q now id related)

  -- In a consistent queue every call leaves a job as it is or moves it along one edge of the life
  -- cycle: created as queued without attempts, discarded while queued, queued to running, running
  -- to succeeded, running to failed or queued with one attempt more, failed and retryable to
  -- queued.
  pub Step-Move :
      {q q' : JobQueue P.Store}
      → Inv q
      → Step sha256 P q q'
      → (id : String) → Move (Dict.get q.jobs id) (Dict.get q'.jobs id)
  Step-Move {q} h (create fresh r e new) = create_job-Moved sha256 P q fresh new r e
  Step-Move {q} h (get_or_create fresh r t e p u c new) =
      get_or_create_job-Moved sha256 P q fresh new r t e p u c
  Step-Move {q} h (publish id e related) = publish_job-Moved P q id e related
  Step-Move {q} h (enqueue id) = enqueue_job-Moved P q id
  Step-Move {q} h (discard id) = discard_queued_job-Moved P q id
  Step-Move {q} h (start_next now) = start_next_job-Moved P q h now
  Step-Move {q} h (start now id) = start_job-Moved P q h now id
  Step-Move {q} h (succeed now id result) = mark_succeeded-Moved P q h now id result
  Step-Move {q} h (fail now id error retryable) = mark_failed-Moved P q h now id error retryable
  Step-Move {q} h (retry now id related) = retry_failed_job-Moved P q h now id related

Move-succeeded :
    {o o' : Option JobRecord}
    → Move o o'
    → (job : JobRecord) → o ≡ some job
    → job.status ≡ succeeded
    → o' ≡ some job
Move-succeeded Lifecycle.keep job e s = e
Move-succeeded (Lifecycle.create _ _) job e s = cc
Move-succeeded (Lifecycle.discard a) job e s = ground arith
Move-succeeded (Lifecycle.start a _ _) job e s = ground arith
Move-succeeded (Lifecycle.succeed a _ _) job e s = ground arith
Move-succeeded (Lifecycle.give_up a _ _) job e s = ground arith
Move-succeeded (Lifecycle.put_back a _ _) job e s = ground arith
Move-succeeded (Lifecycle.retry a _ _ _) job e s = ground arith

module _ (sha256 : List ℕ → String) (P : Persistence) where
  -- A job of a consistent queue that has succeeded is still there, the very same record, after any
  -- calls.
  pub succeeded_forever :
      {q q' : JobQueue P.Store}
      → Inv q
      → Reach sha256 P q q'
      → (id : String) (job : JobRecord) → Dict.get q.jobs id ≡ some job
      → job.status ≡ succeeded
      → Dict.get q'.jobs id ≡ some job
  succeeded_forever h here id job found done = found
  succeeded_forever h (next {s} {t} r step) id job found done =
      Move-succeeded (Step-Move sha256 P (Reach-Inv sha256 P h r) step id) job
        (succeeded_forever h r id job found done) done
