-- ===== src/Jobs/Durable/System.antt =====
-- The calls of a durable `JobQueue` (services/api/job_queue.py) over time, on a database whose
-- writes fail, if at all, before they commit.
use veri_doc.Prelude.{ℕ, String, List}
use veri_doc.Jobs.State.{JobQueue}
use veri_doc.Jobs.Invariant.{Inv}
use veri_doc.Jobs.System.{
  Step, create, get_or_create, publish, enqueue, discard, start_next, start, succeed, fail, retry,
  Reach, here, next,
}
use veri_doc.Jobs.System.Safety.{Reach-Inv}
use veri_doc.Jobs.Durable.{Database, durable}
use veri_doc.Jobs.Durable.Calls.{
  Faithful, start_next_job-Kept, start_job-Kept, mark_succeeded-Kept, mark_failed-Kept,
  retry_failed_job-Kept,
}
use veri_doc.Jobs.Durable.Births.{
  create_job-Kept, get_or_create_job-Kept, publish_job-Kept, enqueue_job-Kept,
  discard_queued_job-Kept,
}

module _ (sha256 : List ℕ → String) where
  Step-Faithful :
      {q q' : JobQueue Database} → Inv q → Faithful q → Step sha256 durable q q' → Faithful q'
  Step-Faithful {q} h g (create fresh r e new) = create_job-Kept sha256 q h g fresh new r e
  Step-Faithful {q} h g (get_or_create fresh r t e p u c new) =
      get_or_create_job-Kept sha256 q h g fresh new r t e p u c
  Step-Faithful {q} h g (publish id e related) = publish_job-Kept q h g id e related
  Step-Faithful {q} h g (enqueue id) = enqueue_job-Kept q h g id
  Step-Faithful {q} h g (discard id) = discard_queued_job-Kept q h g id
  Step-Faithful {q} h g (start_next now) = start_next_job-Kept q h g now
  Step-Faithful {q} h g (start now id) = start_job-Kept q h g now id
  Step-Faithful {q} h g (succeed now id result) = mark_succeeded-Kept q h g now id result
  Step-Faithful {q} h g (fail now id error retryable) =
      mark_failed-Kept q h g now id error retryable
  Step-Faithful {q} h g (retry now id related) = retry_failed_job-Kept q h g now id related

  -- A durable queue with consistent tables whose database fails, if at all, before the commit, and
  -- whose rows are exactly the encoded published jobs, each with its sequence in the deque where
  -- it is queued, keeps its rows so through any calls of its methods, failed ones included.
  pub Reach-Faithful :
      {q q' : JobQueue Database} → Inv q → Faithful q → Reach sha256 durable q q' → Faithful q'
  Reach-Faithful h g here = g
  Reach-Faithful h g (next r s) =
      Step-Faithful (Reach-Inv sha256 durable h r) (Reach-Faithful h g r) s
