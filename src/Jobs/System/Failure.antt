-- ===== src/Jobs/System/Failure.antt =====
-- What `mark_failed` of the job queue (services/api/job_queue.py) does with a running job when the
-- store does not fail.
use veri_doc.Prelude.{
  ◌+◌, String, ◌≡◌, refl, Bool, true, false, ◌&&◌, [], ◌∷◌, ◌++◌, none, some, ltb, arith, eq_iff,
}
use veri_doc.Prelude.Dict
use veri_doc.Prelude.Dict.{Dict, get-put}
use veri_doc.Jobs.Record.{JobRecord, Result, ok, running, queued, failed}
use veri_doc.Jobs.Exec.{bind_assoc, return_rule, gets_rule, choose_rule, end_rule, raise_if_rule}
use veri_doc.Jobs.State.{Persistence, JobQueue, put_job, push_pending}
use veri_doc.Jobs.Worker.{requeue, mark_failed}
use veri_doc.Jobs.Rules.{find_known_rule, allocate_rule, append_pending_rule}
use veri_doc.Jobs.Saved.{Saves, replace_saved, replace_saved_end}
use veri_doc.Jobs.Invariant.{Inv}
use veri_doc.Jobs.Invariant.Change.{true_not_false}

put_own :
    {V : Type 0} (d : Dict V) (k j : String) (v : V) → k ≡ j → Dict.get (Dict.put d k v) j ≡ some v
put_own d k j v same = ground (arith, get-put d k j v, eq_iff k j)

module _ (P : Persistence) (saves : Saves P) (q : JobQueue P.Store) (h : Inv q)
    (now id error : String) (retryable : Bool) (job : JobRecord) where
  -- The job is queued again, behind all the others.
  abbrev pub GoesBack : Result JobRecord × JobQueue P.Store → Type 0
  GoesBack r =
      let again = record job {
        status = queued;
        attempts = job.attempts + 1;
        error = some error;
        updated_at = now;
      } in
      (r.0 ≡ ok again)
      × (Dict.get r.1.jobs id ≡ some again)
      × (r.1.pending_job_ids ≡ q.pending_job_ids ++ (id ∷ []))
      × (Dict.get r.1.pending_sequences id ≡ some q.next_pending_sequence)

  -- The job has failed for good, and nothing is queued.
  abbrev pub GivesUp : Result JobRecord × JobQueue P.Store → Type 0
  GivesUp r =
      let lost = record job {
        status = failed;
        attempts = job.attempts + 1;
        error = some error;
        retryable = retryable;
        updated_at = now;
      } in
      (r.0 ≡ ok lost)
      × (Dict.get r.1.jobs id ≡ some lost)
      × (r.1.pending_job_ids ≡ q.pending_job_ids)

  abbrev pub Fails : Result JobRecord × JobQueue P.Store → Type 0
  Fails r =
      ((retryable && ltb (job.attempts + 1) q.max_attempts) ≡ true → GoesBack r)
      × ((retryable && ltb (job.attempts + 1) q.max_attempts) ≡ false → GivesUp r)

  -- In a consistent queue whose store saves, mark_failed on a running job counts the attempt and
  -- puts the job back last in the deque, with the next sequence, if the failure is retryable and
  -- an attempt is left; otherwise it marks the job failed and leaves the deque.
  pub mark_failed-outcome :
      Dict.get q.jobs id ≡ some job
      → job.status ≡ running
      → Fails (mark_failed P now id error retryable q)
  unfolding mark_failed requeue put_job push_pending
  mark_failed-outcome found runs =
      let here = h.keyed id job found in
      rw bind_assoc (
        find_known_rule Fails id job _ q found (
          rw bind_assoc (
            raise_if_rule Fails _ _ _ q (λ idle. ground arith)
              λ _. return_rule Fails _ _ q (
                gets_rule Fails _ _ q (
                  choose_rule Fails _ _ _ q
                    (λ left. allocate_rule Fails _ q (
                      replace_saved P saves Fails now _ _ _ _ λ st.
                        append_pending_rule Fails id q.next_pending_sequence _ _ (
                          end_rule Fails _ _ (
                            (λ _. (
                              refl,
                              put_own q.jobs job.job_id id _ here,
                              refl,
                              put_own q.pending_sequences id id _ refl,
                            )),
                            λ gone. absurd (true_not_false left gone),
                          ))))
                    (λ none_left. replace_saved_end P saves Fails now _ none q (λ st. (
                      (λ back. absurd (true_not_false back none_left)),
                      λ _. (refl, put_own q.jobs job.job_id id _ here, refl),
                    ))))))))
