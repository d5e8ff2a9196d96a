-- ===== src/Jobs/System/Atomic.antt =====
-- What the methods of the job queue (services/api/job_queue.py) that run jobs leave behind when they
-- raise.
use veri_doc.Prelude.{String, ◌≡◌, refl, Bool, Option, none, some}
use veri_doc.Prelude.Int.{ℤ}
use veri_doc.Py.Value.{Fields}
use veri_doc.Jobs.Record.{JobRecord, Error, Result, ok, err}
use veri_doc.Jobs.Exec.{
  Exec, return, resume, ◌>>=◌, bind_assoc, return_rule, raise_if_rule, gets_rule, choose_rule,
  end_rule, modify_rule,
}
use veri_doc.Jobs.State.{Persistence, JobQueue}
use veri_doc.Jobs.Worker.{
  claim, claim_head, requeue, start_job, start_next_job, mark_succeeded, mark_failed,
  retry_failed_job,
}
use veri_doc.Jobs.Rules.{
  find_job_rule, append_pending_rule, replace_rule, replace_end, allocate_rule,
}
use veri_doc.Jobs.Invariant.{Inv}
use veri_doc.Jobs.Invariant.Head.{start_next_rule}

-- Everything but the store and the counter of sequences.
pub record SameTables {Store : Type 0} (q q' : JobQueue Store) : Type 0 where
  pub same_jobs : q'.jobs ≡ q.jobs
  pub same_index : q'.idempotency_index ≡ q.idempotency_index
  pub same_pending : q'.pending_job_ids ≡ q.pending_job_ids
  pub same_sequences : q'.pending_sequences ≡ q.pending_sequences
  pub same_unpublished : q'.unpublished_job_ids ≡ q.unpublished_job_ids

abbrev pub IsAtomic : {A Store : Type 0} → JobQueue Store → Result A × JobQueue Store → Type 0
IsAtomic q r = (e : Error) → r.0 ≡ err e → SameTables q r.1

-- The store and the counter are not among the tables.
pub aside :
    {A Store : Type 0} (q : JobQueue Store) (n : ℤ) (st : Store) (e : Error)
    → IsAtomic {A = A} q (err e, record q { next_pending_sequence = n; store = st })
aside q n st e _ _ = record {
  same_jobs = refl;
  same_index = refl;
  same_pending = refl;
  same_sequences = refl;
  same_unpublished = refl;
}

pub returned : {A Store : Type 0} (q s : JobQueue Store) (a : A) → IsAtomic q (ok a, s)
returned q s a e p = cc

resume-IsAtomic :
    {A B Store : Type 0} (q : JobQueue Store) (r : Result A) (f : A → B) (s : JobQueue Store)
    → IsAtomic q (r, s)
    → IsAtomic q (resume r (λ a s'. (ok (f a), s')) s)
resume-IsAtomic q (ok a) f s h = returned q s (f a)
resume-IsAtomic q (err e) f s h = λ e' p. h e refl

-- A step before a rest that only returns.
pub then_return :
    {A B Store : Type 0} (q : JobQueue Store) (m : Exec (JobQueue Store) A) (f : A → B)
    → IsAtomic q (m q)
    → IsAtomic q ((m >>= λ a. return (f a)) q)
unfolding ◌>>=◌
then_return q m f h = resume-IsAtomic q (m q).0 f (m q).1 h

module _ (P : Persistence) (q : JobQueue P.Store) where
  pub mark_succeeded-IsAtomic :
      (now id : String) (result : Fields) → IsAtomic q (mark_succeeded P now id result q)
  unfolding mark_succeeded
  mark_succeeded-IsAtomic now id result = rw bind_assoc (
      find_job_rule (IsAtomic q) id _ q (aside q _ _ _) λ job found. rw bind_assoc (
        raise_if_rule (IsAtomic q) _ _ _ q (λ _. aside q _ _ _)
          λ runs. return_rule (IsAtomic q) _ _ q (
            replace_end P (IsAtomic q) now _ none none q (λ e st. aside q _ st e)
              (λ st. returned q _ _))))

  requeue-IsAtomic :
      (now id : String) (job : JobRecord) (related : Option P.Related)
      → IsAtomic q (requeue P now job id related q)
  unfolding requeue
  requeue-IsAtomic now id job related = allocate_rule (IsAtomic q) _ q (
      replace_rule P (IsAtomic q) now job (some q.next_pending_sequence) related _ _
        (λ e st. aside q _ st e)
        (λ st.
          append_pending_rule (IsAtomic q) id q.next_pending_sequence _ _
            (end_rule (IsAtomic q) _ _ (returned q _ _))))

  pub mark_failed-IsAtomic :
      (now id error : String) (retryable : Bool)
      → IsAtomic q (mark_failed P now id error retryable q)
  unfolding mark_failed
  mark_failed-IsAtomic now id error retryable = rw bind_assoc (
      find_job_rule (IsAtomic q) id _ q (aside q _ _ _) λ job found. rw bind_assoc (
        raise_if_rule (IsAtomic q) _ _ _ q (λ _. aside q _ _ _)
          λ runs. return_rule (IsAtomic q) _ _ q (
            gets_rule (IsAtomic q) _ _ q (
              choose_rule (IsAtomic q) _ _ _ q (λ _. requeue-IsAtomic now id _ none)
                (λ _.
                  replace_end P (IsAtomic q) now _ none none q (λ e st. aside q _ st e)
                    (λ st. returned q _ _))))))

  pub retry_failed_job-IsAtomic :
      (now id : String) (related : Option P.Related)
      → IsAtomic q (retry_failed_job P now id related q)
  unfolding retry_failed_job
  retry_failed_job-IsAtomic now id related =
      find_job_rule (IsAtomic q) id _ q (aside q _ _ _) λ job found.
        raise_if_rule (IsAtomic q) _ _ _ q (λ _. aside q _ _ _)
          λ has_failed.
            raise_if_rule (IsAtomic q) _ _ _ q (λ _. aside q _ _ _)
              λ retryable. gets_rule (IsAtomic q) _ _ q (
                raise_if_rule (IsAtomic q) _ _ _ q (λ _. aside q _ _ _)
                  λ free. requeue-IsAtomic now id _ related)

  claim-IsAtomic : (now id : String) (job : JobRecord) → IsAtomic q (claim P now job id q)
  unfolding claim
  claim-IsAtomic now id job = gets_rule (IsAtomic q) _ _ q (
      replace_rule P (IsAtomic q) now _ _ none _ q (λ e st. aside q _ st e)
        (λ st. modify_rule (IsAtomic q) _ _ _ (end_rule (IsAtomic q) _ _ (returned q _ _))))

  pub start_job-IsAtomic : (now id : String) → IsAtomic q (start_job P now id q)
  unfolding start_job
  start_job-IsAtomic now id = find_job_rule (IsAtomic q) id _ q (aside q _ _ _) λ job found.
      gets_rule (IsAtomic q) _ _ q (
        raise_if_rule (IsAtomic q) _ _ _ q (λ _. aside q _ _ _)
          λ public.
            raise_if_rule (IsAtomic q) _ _ _ q (λ _. aside q _ _ _)
              λ waits. gets_rule (IsAtomic q) _ _ q (
                raise_if_rule (IsAtomic q) _ _ _ q (λ _. aside q _ _ _)
                  λ _. claim-IsAtomic now id job))

  pub start_next_job-IsAtomic : Inv q → (now : String) → IsAtomic q (start_next_job P now q)
  unfolding claim_head
  start_next_job-IsAtomic h now =
      start_next_rule P (IsAtomic q) q h now (λ _. returned q q none)
        λ id rest job same found waits public. gets_rule (IsAtomic q) _ _ q (
          choose_rule (IsAtomic q) _ _ _ q (λ _. end_rule (IsAtomic q) _ q (returned q q none))
            (λ _. then_return q (claim P now job id) some (claim-IsAtomic now id job)))
