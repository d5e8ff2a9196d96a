-- ===== src/Jobs/System/Admission.antt =====
-- What the methods of the job queue (services/api/job_queue.py) that create, publish and discard jobs
-- leave behind when they raise.
use veri_doc.Prelude.{ℕ, String, Bool, true, false, ◌&&◌, List, Option, none, some, arith}
use veri_doc.Prelude.Int.{ℤ}
use veri_doc.Prelude.Dict
use veri_doc.Py.Value.{Fields}
use veri_doc.Jobs.Record.{JobRecord, Result}
use veri_doc.Jobs.Request.{JobRequest, normalize_job_request}
use veri_doc.Jobs.Exec.{
  raise_if_rule, gets_rule, choose_rule, end_rule, raise_rule, modify_rule, modify, when_rule,
  lift_rule,
}
use veri_doc.Jobs.State.{Persistence, JobQueue}
use veri_doc.Jobs.Queue.{
  Fresh, create_job_locked, finish_publish, publish_job, enqueue_job, discard_found,
  discard_queued_job, make_job, create_job, get_or_create_job,
}
use veri_doc.Jobs.Rules.{
  find_job_rule, allocate_if_rule, persist_rule, append_pending_rule, delete_rule, idempotent_rule,
}
use veri_doc.Jobs.Invariant.Change.{true_not_false}
use veri_doc.Jobs.System.Atomic.{IsAtomic, aside, returned, then_return}

module _ (P : Persistence) (q : JobQueue P.Store) where
  finish_publish-IsAtomic :
      (job : JobRecord) (id : String) (should : Bool) (current : Option ℤ)
      (related : Option P.Related)
      → IsAtomic q (finish_publish P job id should current related q)
  unfolding finish_publish
  finish_publish-IsAtomic job id should current related =
      allocate_if_rule (IsAtomic q) should current _ q
        (λ _.
          persist_rule P (IsAtomic q) job _ related _ _ (λ e st. aside q _ st e)
            λ st. modify_rule (IsAtomic q) _ _ _ (
              when_rule (IsAtomic q) should _ _ _
                (λ _.
                  append_pending_rule (IsAtomic q) id _ _ _
                    (end_rule (IsAtomic q) _ _ (returned q _ _)))
                (λ _. end_rule (IsAtomic q) _ _ (returned q _ _))))
        (λ skip.
          persist_rule P (IsAtomic q) job _ related _ q (λ e st. aside q _ st e)
            λ st. modify_rule (IsAtomic q) _ _ _ (
              when_rule (IsAtomic q) should _ _ _ (λ y. absurd (true_not_false y skip))
                (λ _. end_rule (IsAtomic q) _ _ (returned q _ _))))

  pub publish_job-IsAtomic :
      (id : String) (enqueue : Bool) (related : Option P.Related)
      → IsAtomic q (publish_job P id enqueue related q)
  unfolding publish_job
  publish_job-IsAtomic id enqueue related =
      find_job_rule (IsAtomic q) id _ q (aside q _ _ _) λ job found. gets_rule (IsAtomic q) _ _ q (
        gets_rule (IsAtomic q) _ _ q (
          gets_rule (IsAtomic q) _ _ q (
            choose_rule (IsAtomic q) _ _ _ q
              (λ _.
                choose_rule (IsAtomic q) _ _ _ q (λ _. raise_rule (IsAtomic q) _ q (aside q _ _ _))
                  (λ _. end_rule (IsAtomic q) _ q (returned q _ _)))
              (λ _. finish_publish-IsAtomic job id _ _ related))))

  pub enqueue_job-IsAtomic : (id : String) → IsAtomic q (enqueue_job P id q)
  unfolding enqueue_job
  enqueue_job-IsAtomic id = find_job_rule (IsAtomic q) id _ q (aside q _ _ _) λ job found.
      raise_if_rule (IsAtomic q) _ _ _ q (λ _. aside q _ _ _)
        λ waits.
          gets_rule (IsAtomic q) _ _ q
            (gets_rule (IsAtomic q) _ _ q (finish_publish-IsAtomic job id _ _ none))

  discard_found-IsAtomic :
      (id : String) (found : Option JobRecord) → IsAtomic q (discard_found P id found q)
  unfolding discard_found modify
  discard_found-IsAtomic id none = end_rule (IsAtomic q) _ q (returned q _ _)
  discard_found-IsAtomic id (some job) =
      raise_if_rule (IsAtomic q) _ _ _ q (λ _. aside q _ _ _)
        λ waits. delete_rule P (IsAtomic q) id _ q (λ e st. aside q _ st e) (λ st. returned q _ _)

  pub discard_queued_job-IsAtomic : (id : String) → IsAtomic q (discard_queued_job P id q)
  unfolding discard_queued_job
  discard_queued_job-IsAtomic id = discard_found-IsAtomic id (Dict.get q.jobs id)

  create_job_locked-IsAtomic :
      (fresh : Fresh) (r : JobRequest) (enqueue publish : Bool)
      → IsAtomic q (create_job_locked P fresh r enqueue publish q)
  unfolding create_job_locked
  create_job_locked-IsAtomic fresh r enqueue publish = gets_rule (IsAtomic q) _ _ q (
      raise_if_rule (IsAtomic q) _ _ _ q (λ _. aside q _ _ _)
        λ free.
          allocate_if_rule (IsAtomic q) (enqueue && publish) none _ q
            (λ both.
              when_rule (IsAtomic q) publish _ _ _
                (λ _.
                  persist_rule P (IsAtomic q) _ _ none _ _ (λ e st. aside q _ st e)
                    λ st. modify_rule (IsAtomic q) _ _ _ (
                      when_rule (IsAtomic q) (enqueue && publish) _ _ _
                        (λ _.
                          append_pending_rule (IsAtomic q) fresh.job_id _ _ _
                            (end_rule (IsAtomic q) _ _ (returned q _ _)))
                        (λ _. end_rule (IsAtomic q) _ _ (returned q _ _))))
                (λ n. absurd (true_not_false {b = publish} (ground arith) n)))
            (λ skip.
              when_rule (IsAtomic q) publish _ _ q
                (λ _.
                  persist_rule P (IsAtomic q) _ _ none _ q (λ e st. aside q _ st e)
                    λ st. modify_rule (IsAtomic q) _ _ _ (
                      when_rule (IsAtomic q) (enqueue && publish) _ _ _
                        (λ y. absurd (true_not_false y skip))
                        (λ _. end_rule (IsAtomic q) _ _ (returned q _ _))))
                (λ _. modify_rule (IsAtomic q) _ _ _ (
                  when_rule (IsAtomic q) (enqueue && publish) _ _ _
                    (λ y. absurd (true_not_false y skip))
                    (λ _. end_rule (IsAtomic q) _ _ (returned q _ _))))))

  make_job-IsAtomic :
      (fresh : Fresh) (r : JobRequest) (template : Option (Result (Option Fields)))
      (enqueue publish : Bool)
      → IsAtomic q (make_job P fresh r template enqueue publish q)
  unfolding make_job
  make_job-IsAtomic fresh r none enqueue publish =
      create_job_locked-IsAtomic fresh r enqueue publish
  make_job-IsAtomic fresh r (some made) enqueue publish =
      lift_rule (IsAtomic q) made _ q (λ e _. aside q _ _ _)
        λ t _. create_job_locked-IsAtomic fresh (record r { template = t }) enqueue publish

module _ (sha256 : List ℕ → String) (P : Persistence) (q : JobQueue P.Store) (fresh : Fresh) where
  pub create_job-IsAtomic :
      (r : JobRequest) (enqueue : Bool) → IsAtomic q (create_job sha256 P fresh r enqueue q)
  unfolding create_job
  create_job-IsAtomic r enqueue =
      lift_rule (IsAtomic q) (normalize_job_request r) _ q (λ e _. aside q _ _ _)
        λ r' _.
          idempotent_rule sha256 (IsAtomic q) false true r' _ q (λ e. aside q _ _ _)
            (λ id job bound shown found same. end_rule (IsAtomic q) _ q (returned q _ _))
            (λ unbound. create_job_locked-IsAtomic P q fresh r' enqueue true)

  pub get_or_create_job-IsAtomic :
      (r : JobRequest) (template : Option (Result (Option Fields)))
      (enqueue publish unpublished compare : Bool)
      → IsAtomic q
          (get_or_create_job sha256 P fresh r template enqueue publish unpublished compare q)
  unfolding get_or_create_job
  get_or_create_job-IsAtomic r template enqueue publish unpublished compare =
      lift_rule (IsAtomic q) (normalize_job_request r) _ q (λ e _. aside q _ _ _)
        λ r' _.
          idempotent_rule sha256 (IsAtomic q) unpublished compare r' _ q (λ e. aside q _ _ _)
            (λ id job bound shown found same. end_rule (IsAtomic q) _ q (returned q _ _))
            (λ unbound.
              then_return q (make_job P fresh r' template enqueue publish) (λ job. (job, true))
                (make_job-IsAtomic P q fresh r' template enqueue publish))
