-- ===== src/Jobs/Invariant/Methods.antt =====
-- Every method of `JobQueue` (services/api/job_queue.py) that runs jobs keeps the invariant,
-- whether it returns or raises.
use veri_doc.Prelude.{String, ◌≡◌, refl, inl, inr, Bool, Option, true, false, none, some, arith}
use veri_doc.Prelude.Dict
use veri_doc.Prelude.Dict.{get-any-values}
use veri_doc.Prelude.Lists.{contains}
use veri_doc.Py.Value.{Fields}
use veri_doc.Jobs.Record.{JobRecord, is_queued}
use veri_doc.Jobs.Exec.{raise_if_rule, return_rule, gets_rule, choose_rule, end_rule, bind_assoc}
use veri_doc.Jobs.State.{Persistence, JobQueue}
use veri_doc.Jobs.Worker.{
  claim, claim_head, start_job, start_next_job, mark_succeeded, mark_failed, retry_failed_job,
}
use veri_doc.Jobs.Rules.{find_job_rule, replace_end}
use veri_doc.Jobs.Invariant.{Inv}
use veri_doc.Jobs.Invariant.Tables.{Inv-set_store}
use veri_doc.Jobs.Invariant.Head.{start_next_rule}
use veri_doc.Jobs.Invariant.Change.{
  Keeps, true_not_false, bind_Keeps, not_pending, not_unpublished, Inv-change, requeue-Inv,
  claim-Inv,
}

module _ (P : Persistence) (q : JobQueue P.Store) (h : Inv q) where
  -- Every job that a method finishes was running.
  pub mark_succeeded-Inv :
      (now id : String) (result : Fields) → Inv (mark_succeeded P now id result q).1
  unfolding mark_succeeded
  mark_succeeded-Inv now id result = rw bind_assoc (
      find_job_rule Keeps id _ q h λ job found. rw bind_assoc (
        raise_if_rule Keeps _ _ _ q (λ _. h)
          λ runs. return_rule Keeps _ _ q (
            replace_end P Keeps now _ none none q (λ e st. Inv-set_store q h st)
              λ st.
                Inv-change (record q { store = st }) (Inv-set_store q h st) id job found _ refl refl
                  (λ c. ground (arith, not_pending q h id job found))
                  (λ c. ground (arith, not_unpublished q h id job found))
                  (inl (λ a. ground arith)))))

  pub mark_failed-Inv :
      (now id error : String) (retryable : Bool) → Inv (mark_failed P now id error retryable q).1
  unfolding mark_failed
  mark_failed-Inv now id error retryable = rw bind_assoc (
      find_job_rule Keeps id _ q h λ job found. rw bind_assoc (
        raise_if_rule Keeps _ _ _ q (λ _. h)
          λ runs.
            let idle = not_pending q h id job found (ground arith) in
            let public = not_unpublished q h id job found (ground arith) in
            return_rule Keeps _ _ q (
              gets_rule Keeps _ _ q (
                choose_rule Keeps _ _ _ q
                  (λ _.
                    requeue-Inv P q h id job found now _ none refl refl refl idle public
                      (inl (λ a. ground arith)))
                  (λ _.
                    replace_end P Keeps now _ none none q (λ e st. Inv-set_store q h st)
                      λ st.
                        Inv-change (record q { store = st }) (Inv-set_store q h st) id job found _
                          refl refl (λ c. absurd (true_not_false c idle))
                          (λ c. absurd (true_not_false c public)) (inl (λ a. ground arith)))))))

  pub retry_failed_job-Inv :
      (now id : String) (related : Option P.Related) → Inv (retry_failed_job P now id related q).1
  unfolding retry_failed_job
  retry_failed_job-Inv now id related = find_job_rule Keeps id _ q h λ job found.
      raise_if_rule Keeps _ _ _ q (λ _. h)
        λ has_failed.
          let idle = not_pending q h id job found (ground arith) in
          let public = not_unpublished q h id job found (ground arith) in
          raise_if_rule Keeps _ _ _ q (λ _. h)
            λ _. gets_rule Keeps _ _ q (
              raise_if_rule Keeps _ _ _ q (λ _. h)
                λ free.
                  requeue-Inv P q h id job found now _ related refl refl refl idle public
                    (inr (λ a. ground arith)))

  pub start_job-Inv : (now id : String) → Inv (start_job P now id q).1
  unfolding start_job
  start_job-Inv now id = find_job_rule Keeps id _ q h λ job found. gets_rule Keeps _ _ q (
      raise_if_rule Keeps _ _ _ q (λ _. h)
        λ public.
          raise_if_rule Keeps _ _ _ q (λ _. h)
            λ waits. gets_rule Keeps _ _ q (
              raise_if_rule Keeps _ _ _ q (λ _. h)
                λ _. claim-Inv P q h id job found now (ground arith) public))

  claim_head-Inv :
      (now id : String) (job : JobRecord)
      → Dict.get q.jobs id ≡ some job
      → is_queued job.status ≡ true
      → contains q.unpublished_job_ids id ≡ false
      → Inv (claim_head P now job id q).1
  unfolding claim_head
  claim_head-Inv now id job found waits public = gets_rule Keeps _ _ q (
      choose_rule Keeps _ _ _ q (λ _. end_rule Keeps _ q h)
        (λ _.
          bind_Keeps (claim P now job id) _ q (claim-Inv P q h id job found now waits public)
            λ started q' h'. end_rule Keeps _ q' h'))

  pub start_next_job-Inv : (now : String) → Inv (start_next_job P now q).1
  start_next_job-Inv now =
      start_next_rule P Keeps q h now (λ _. h)
        λ id rest job same found waits public. claim_head-Inv now id job found waits public
