-- ===== src/Jobs/Invariant/Head.antt =====
-- The head of the pending deque, as `start_next_job` of services/api/job_queue.py finds it.
use veri_doc.Prelude.{
  String, ◌≡◌, refl, true, false, ◌&&◌, List, [], ◌∷◌, none, some, Option, Option-cases, Bool-cases,
  inl, inr, arith, eq_iff,
}
use veri_doc.Prelude.Dict
use veri_doc.Prelude.Dict.{any-values-get}
use veri_doc.Prelude.Lists.{contains}
use veri_doc.Jobs.Record.{JobRecord, Result, ok, is_queued, is_running, is_high_quality}
use veri_doc.Jobs.State.{Persistence, JobQueue, has_running_high_quality_job}
use veri_doc.Jobs.Worker.{claim_head, claim_next, start_next_job}
use veri_doc.Jobs.Invariant.{Inv}

module _ (P : Persistence) (Q : Result (Option JobRecord) × JobQueue P.Store → Type 0)
    (q : JobQueue P.Store) (h : Inv q) (now : String) where
  claim_next_rule :
      (ids : List String)
      → q.pending_job_ids ≡ ids
      → (q.pending_job_ids ≡ [] → Q (ok none, q))
      → ((id : String) (rest : List String) (job : JobRecord)
          → q.pending_job_ids ≡ id ∷ rest
          → Dict.get q.jobs id ≡ some job
          → is_queued job.status ≡ true
          → contains q.unpublished_job_ids id ≡ false
          → Q (claim_head P now job id q))
      → Q (claim_next P now ids q)
  unfolding claim_next contains
  claim_next_rule [] same idle takes = idle same
  claim_next_rule (id ∷ rest) same idle takes =
      let here : contains q.pending_job_ids id ≡ true = rw same (ground (arith, eq_iff id id)) in
      elim (Option-cases (Dict.get q.jobs id)) [
        | inl lost ↦ ground (arith, h.pending_queued id)
        | inr (job, found) ↦
            let waits : is_queued job.status ≡ true = ground (arith, h.pending_queued id) in
            rw (found, waits, claim_next)
              (takes id rest job same found waits (h.pending_public id here))
      ]

  -- The deque is empty, or its head is a job that is queued and published.
  pub start_next_rule :
      (q.pending_job_ids ≡ [] → Q (ok none, q))
      → ((id : String) (rest : List String) (job : JobRecord)
          → q.pending_job_ids ≡ id ∷ rest
          → Dict.get q.jobs id ≡ some job
          → is_queued job.status ≡ true
          → contains q.unpublished_job_ids id ≡ false
          → Q (claim_head P now job id q))
      → Q (start_next_job P now q)
  unfolding start_next_job
  start_next_rule idle takes = claim_next_rule q.pending_job_ids refl idle takes

module _ {Store : Type 0} (q : JobQueue Store) (h : Inv q) where
  -- A queued high-quality job is the only active one, so none is running.
  pub queued_not_busy :
      (id : String) (job : JobRecord)
      → Dict.get q.jobs id ≡ some job
      → is_queued job.status ≡ true
      → (is_high_quality job && has_running_high_quality_job q) ≡ false
  unfolding has_running_high_quality_job
  queued_not_busy id job found waits =
      elim (Bool-cases (is_high_quality job && has_running_high_quality_job q)) [
        | inr free ↦ free
        | inl busy ↦
            let (k, other, found', runs) =
              any-values-get (λ j. is_high_quality j && is_running j.status) q.jobs h.distinct
                (ground arith) in
            ground (arith, h.single_high_quality id k job other)
      ]
