-- ===== src/Jobs/System/Service.antt =====
-- What a worker gets from the job queue (services/api/job_queue.py) when the store does not fail.
use veri_doc.Prelude.{String, ◌≡◌, refl, List, ◌∷◌, Option, some, arith, eq_iff}
use veri_doc.Prelude.Dict
use veri_doc.Prelude.Dict.{get-put}
use veri_doc.Prelude.Lists.{remove_first}
use veri_doc.Jobs.Record.{JobRecord, Result, ok, running, queued}
use veri_doc.Jobs.Exec.{
  return, ◌>>=◌, bind_assoc, return_rule, gets_rule, choose_rule, end_rule, modify_rule,
}
use veri_doc.Jobs.State.{Persistence, JobQueue, put_job, drop_pending}
use veri_doc.Jobs.Worker.{claim, claim_head, start_next_job}
use veri_doc.Jobs.Saved.{Saves, replace_saved}
use veri_doc.Jobs.Invariant.{Inv}
use veri_doc.Jobs.Invariant.Head.{start_next_rule, queued_not_busy}

-- What `start_next_job` does to a job.
abbrev pub started : String → JobRecord → JobRecord
started now job = record job { status = running; updated_at = now }

module _ (P : Persistence) (saves : Saves P) (q : JobQueue P.Store) (h : Inv q) where
  -- The call answers with the pending job of that id, started, and takes it off the deque.
  abbrev pub Takes :
      String → String → List String → Result (Option JobRecord) × JobQueue P.Store → Type 0
  Takes now id rest r =
      (job : JobRecord) × (Dict.get q.jobs id ≡ some job)
      × (job.status ≡ queued)
      × (r.0 ≡ ok (some (started now job)))
      × (Dict.get r.1.jobs id ≡ some (started now job))
      × (r.1.pending_job_ids ≡ rest)

  claim-Takes :
      (now id : String) (rest : List String) (job : JobRecord)
      → q.pending_job_ids ≡ id ∷ rest
      → Dict.get q.jobs id ≡ some job
      → job.status ≡ queued
      → Takes now id rest ((claim P now job id >>= λ a. return (some a)) q)
  unfolding claim put_job drop_pending remove_first
  claim-Takes now id rest job head found waits =
      let T = Takes now id rest in
      rw bind_assoc (
        gets_rule T _ _ q (
          rw bind_assoc (
            replace_saved P saves T now _ _ _ q λ st. rw bind_assoc (
              modify_rule T _ _ _ (
                return_rule T _ _ _ (
                  end_rule T _ _ (
                    job,
                    found,
                    waits,
                    refl,
                    ground (
                      arith,
                      get-put q.jobs job.job_id id (started now job),
                      eq_iff job.job_id id,
                      h.keyed id job found,
                    ),
                    ground (arith, eq_iff id id),
                  )))))))

  -- In a consistent queue whose store saves, with a pending job, start_next_job returns the first
  -- pending job, which was queued, as running, stores it so, and leaves the rest of the deque.
  pub start_next_job-fifo :
      (now id : String) (rest : List String)
      → q.pending_job_ids ≡ id ∷ rest
      → Takes now id rest (start_next_job P now q)
  unfolding claim_head
  start_next_job-fifo now id rest head =
      start_next_rule P (Takes now id rest) q h now (λ empty. cc)
        λ id' rest' job same found waits public.
          let at : id' ≡ id = ground arith in
          gets_rule (Takes now id rest) _ _ q (
            choose_rule (Takes now id rest) _ _ _ q
              (λ busy. cc (queued_not_busy q h id' job found waits))
              (λ free. rw at (claim-Takes now id rest job head (rw at at found) (ground arith))))
