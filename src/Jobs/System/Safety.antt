-- ===== src/Jobs/System/Safety.antt =====
-- What holds of the job queue (services/api/job_queue.py) after any calls.
use veri_doc.Prelude.{ℕ, String, List, arith}
use veri_doc.Prelude.Int.{ℤ}
use veri_doc.Prelude.Lists.{contains}
use veri_doc.Prelude.Dict.{get-empty}
use veri_doc.Jobs.Record.{JobRecord}
use veri_doc.Jobs.State.{Persistence, JobQueue}
use veri_doc.Jobs.System.{
  Step, create, get_or_create, publish, enqueue, discard, start_next, start, succeed, fail, retry,
  Reach, here, next, new_queue,
}
use veri_doc.Jobs.Invariant.{Inv}
use veri_doc.Jobs.Invariant.Methods.{
  start_next_job-Inv, start_job-Inv, mark_succeeded-Inv, mark_failed-Inv, retry_failed_job-Inv,
}
use veri_doc.Jobs.Invariant.Creation.{
  create_job-Inv, get_or_create_job-Inv, publish_job-Inv, enqueue_job-Inv, discard_queued_job-Inv,
}

pub new_queue-Inv :
    {Store : Type 0} (max_attempts : ℕ) (store : Store) → Inv (new_queue max_attempts store)
unfolding contains
new_queue-Inv max_attempts store = record {
  distinct = tt;
  keyed = λ id job e. cc (get-empty {V = JobRecord} id);
  indexed = λ id job e. cc (get-empty {V = JobRecord} id);
  bound = λ key id e. cc (get-empty {V = String} key);
  pending_queued = λ id c. ground arith;
  pending_public = λ id c. ground arith;
  unpublished_queued = λ id c. ground arith;
  sequenced = λ id. ground (arith, get-empty {V = ℤ} id);
  ascending = tt;
  before_next = tt;
  single_high_quality = λ i j a b ea eb aa ab. cc (get-empty {V = JobRecord} i);
}

module _ (sha256 : List ℕ → String) (P : Persistence) where
  -- Every call of a method keeps the invariant of the queue's tables, whatever its outcome.
  pub Step-Inv : {q q' : JobQueue P.Store} → Inv q → Step sha256 P q q' → Inv q'
  Step-Inv {q} h (create fresh r e new) = create_job-Inv sha256 P q h fresh new r e
  Step-Inv {q} h (get_or_create fresh r t e p u c new) =
      get_or_create_job-Inv sha256 P q h fresh new r t e p u c
  Step-Inv {q} h (publish id e related) = publish_job-Inv P q h id e related
  Step-Inv {q} h (enqueue id) = enqueue_job-Inv P q h id
  Step-Inv {q} h (discard id) = discard_queued_job-Inv P q h id
  Step-Inv {q} h (start_next now) = start_next_job-Inv P q h now
  Step-Inv {q} h (start now id) = start_job-Inv P q h now id
  Step-Inv {q} h (succeed now id result) = mark_succeeded-Inv P q h now id result
  Step-Inv {q} h (fail now id error retryable) = mark_failed-Inv P q h now id error retryable
  Step-Inv {q} h (retry now id related) = retry_failed_job-Inv P q h now id related

  -- A queue whose tables are consistent keeps them so through any calls of its methods, failed
  -- ones included; the tables are consistent when each job stands under its id and its idempotency
  -- key, each key leads to a job of that key, pending jobs are queued and published and stand in
  -- the order of their sequences, unpublished jobs are queued, and at most one high-quality job is
  -- queued or running.
  pub Reach-Inv : {q q' : JobQueue P.Store} → Inv q → Reach sha256 P q q' → Inv q'
  Reach-Inv h here = h
  Reach-Inv h (next r s) = Step-Inv (Reach-Inv h r) s
