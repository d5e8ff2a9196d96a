-- ===== src/Jobs/System/Lifecycle.antt =====
-- The life of one job of the queue (services/api/job_queue.py): what one call may make of it.
use veri_doc.Prelude.{
  ◌+◌, String, ◌≡◌, refl, Bool, true, Option, none, some, arith, eq_iff, Bool-cases, inl, inr, ◌==◌,
}
use veri_doc.Prelude.Dict
use veri_doc.Prelude.Dict.{get-put, get-remove}
use veri_doc.Py.Value.{Fields}
use veri_doc.Jobs.Record.{JobRecord, Result, ok, err, is_queued, queued, running, succeeded, failed}
use veri_doc.Jobs.Exec.{
  Exec, resume, ◌>>=◌, bind_assoc, raise_if_rule, return_rule, gets_rule, choose_rule, end_rule,
  modify_rule,
}
use veri_doc.Jobs.State.{Persistence, JobQueue, put_job, push_pending, drop_pending}
use veri_doc.Jobs.Worker.{
  claim, claim_head, requeue, start_job, start_next_job, mark_succeeded, mark_failed,
  retry_failed_job,
}
use veri_doc.Jobs.Rules.{
  find_job_rule, replace_rule, replace_end, allocate_rule, append_pending_rule,
}
use veri_doc.Jobs.Invariant.{Inv}
use veri_doc.Jobs.Invariant.Head.{start_next_rule}

-- The record of a job id before and after a call; `none` is an id that the queue does not know.
pub data Move : Option JobRecord → Option JobRecord → Type 0 where
  keep : {o : Option JobRecord} → Move o o
  create : {b : JobRecord} → b.status ≡ queued → b.attempts ≡ 0 → Move none (some b)
  discard : {a : JobRecord} → a.status ≡ queued → Move (some a) none
  start :
      {a b : JobRecord}
      → a.status ≡ queued
      → b.status ≡ running
      → b.attempts ≡ a.attempts
      → Move (some a) (some b)
  succeed :
      {a b : JobRecord}
      → a.status ≡ running
      → b.status ≡ succeeded
      → b.attempts ≡ a.attempts
      → Move (some a) (some b)
  give_up :
      {a b : JobRecord}
      → a.status ≡ running
      → b.status ≡ failed
      → b.attempts ≡ a.attempts + 1
      → Move (some a) (some b)
  put_back :
      {a b : JobRecord}
      → a.status ≡ running
      → b.status ≡ queued
      → b.attempts ≡ a.attempts + 1
      → Move (some a) (some b)
  retry :
      {a b : JobRecord}
      → a.status ≡ failed
      → a.retryable ≡ true
      → b.status ≡ queued
      → b.attempts ≡ a.attempts
      → Move (some a) (some b)

abbrev pub Moved : {A Store : Type 0} → JobQueue Store → Result A × JobQueue Store → Type 0
Moved q r = (id : String) → Move (Dict.get q.jobs id) (Dict.get r.1.jobs id)

resume-Moved :
    {A B Store : Type 0} (q : JobQueue Store) (r : Result A) (f : A → Exec (JobQueue Store) B)
    (s : JobQueue Store)
    → Moved q (r, s)
    → ((a : A) (q' : JobQueue Store) → Moved {A = A} q (ok a, q') → Moved q (f a q'))
    → Moved q (resume r f s)
resume-Moved q (ok a) f s m rest = rest a s m
resume-Moved q (err e) f s m rest = m

pub bind_Moved :
    {A B Store : Type 0} (q : JobQueue Store) (m : Exec (JobQueue Store) A)
    (f : A → Exec (JobQueue Store) B)
    → Moved q (m q)
    → ((a : A) (q' : JobQueue Store) → Moved {A = A} q (ok a, q') → Moved q (f a q'))
    → Moved q ((m >>= f) q)
unfolding ◌>>=◌
bind_Moved q m f moved rest = resume-Moved q (m q).0 f (m q).1 moved rest

-- A job that is replaced under its own id makes one move, and the others keep.
put_move :
    {Store : Type 0} (q q' : JobQueue Store)
    → q'.jobs ≡ q.jobs
    → (id : String) (old job : JobRecord) → Dict.get q.jobs id ≡ some old
    → job.job_id ≡ id
    → Move (some old) (some job)
    → (j : String) → Move (Dict.get q.jobs j) (Dict.get (put_job job q').jobs j)
unfolding put_job
put_move q q' same id old job found here move j = elim (Bool-cases (job.job_id == j)) [
  | inl hit ↦
      let at : id ≡ j = cc (here, (eq_iff job.job_id j).0 hit) in
      rw (get-put q'.jobs job.job_id j job, hit, ← at, found) move
  | inr miss ↦ rw (get-put q'.jobs job.job_id j job, miss, same) keep
]

module _ (P : Persistence) (q : JobQueue P.Store) (h : Inv q) where
  pub mark_succeeded-Moved :
      (now id : String) (result : Fields) → Moved q (mark_succeeded P now id result q)
  unfolding mark_succeeded
  mark_succeeded-Moved now id result = rw bind_assoc (
      find_job_rule (Moved q) id _ q (λ j. keep)
        λ job found. rw bind_assoc (
          raise_if_rule (Moved q) _ _ _ q (λ _ j. keep)
            λ runs. return_rule (Moved q) _ _ q (
              replace_end P (Moved q) now _ none none q (λ e st j. keep)
                λ st.
                  put_move q (record q { store = st }) refl id job _ found (h.keyed id job found)
                    (succeed (ground arith) refl refl))))

  requeue-Moved :
      (now id : String) (old job : JobRecord) (related : Option P.Related)
      → Dict.get q.jobs id ≡ some old
      → job.job_id ≡ id
      → Move (some old) (some (record job { updated_at = now }))
      → Moved q (requeue P now job id related q)
  unfolding requeue push_pending
  requeue-Moved now id old job related found here move = allocate_rule (Moved q) _ q (
      replace_rule P (Moved q) now job (some q.next_pending_sequence) related _ _ (λ e st j. keep)
        λ st.
          append_pending_rule (Moved q) id q.next_pending_sequence _ _
            (end_rule (Moved q) _ _ (put_move q _ refl id old _ found here move)))

  pub mark_failed-Moved :
      (now id error : String) (retryable : Bool) → Moved q (mark_failed P now id error retryable q)
  unfolding mark_failed
  mark_failed-Moved now id error retryable = rw bind_assoc (
      find_job_rule (Moved q) id _ q (λ j. keep)
        λ job found. rw bind_assoc (
          raise_if_rule (Moved q) _ _ _ q (λ _ j. keep)
            λ runs. return_rule (Moved q) _ _ q (
              gets_rule (Moved q) _ _ q (
                choose_rule (Moved q) _ _ _ q
                  (λ _.
                    requeue-Moved now id job _ none found (h.keyed id job found)
                      (put_back (ground arith) refl refl))
                  (λ _.
                    replace_end P (Moved q) now _ none none q (λ e st j. keep)
                      λ st.
                        put_move q (record q { store = st }) refl id job _ found
                          (h.keyed id job found) (give_up (ground arith) refl refl))))))

  pub retry_failed_job-Moved :
      (now id : String) (related : Option P.Related) → Moved q (retry_failed_job P now id related q)
  unfolding retry_failed_job
  retry_failed_job-Moved now id related =
      find_job_rule (Moved q) id _ q (λ j. keep)
        λ job found.
          raise_if_rule (Moved q) _ _ _ q (λ _ j. keep)
            λ has_failed.
              raise_if_rule (Moved q) _ _ _ q (λ _ j. keep)
                λ retryable. gets_rule (Moved q) _ _ q (
                  raise_if_rule (Moved q) _ _ _ q (λ _ j. keep)
                    λ free.
                      requeue-Moved now id job _ related found (h.keyed id job found)
                        (retry (ground arith) (ground arith) refl refl))

  claim-Moved :
      (now id : String) (job : JobRecord)
      → Dict.get q.jobs id ≡ some job
      → is_queued job.status ≡ true
      → Moved q (claim P now job id q)
  unfolding claim drop_pending
  claim-Moved now id job found waits = gets_rule (Moved q) _ _ q (
      replace_rule P (Moved q) now _ _ none _ q (λ e st j. keep)
        λ st. modify_rule (Moved q) _ _ _ (
          end_rule (Moved q) _ _ (
            put_move q (record q { store = st }) refl id job _ found (h.keyed id job found)
              (start (ground arith) refl refl))))

  pub start_job-Moved : (now id : String) → Moved q (start_job P now id q)
  unfolding start_job
  start_job-Moved now id =
      find_job_rule (Moved q) id _ q (λ j. keep)
        λ job found. gets_rule (Moved q) _ _ q (
          raise_if_rule (Moved q) _ _ _ q (λ _ j. keep)
            λ public.
              raise_if_rule (Moved q) _ _ _ q (λ _ j. keep)
                λ waits. gets_rule (Moved q) _ _ q (
                  raise_if_rule (Moved q) _ _ _ q (λ _ j. keep)
                    λ _. claim-Moved now id job found (ground arith)))

  pub start_next_job-Moved : (now : String) → Moved q (start_next_job P now q)
  unfolding claim_head
  start_next_job-Moved now =
      start_next_rule P (Moved q) q h now (λ _ j. keep)
        λ id rest job same found waits public. gets_rule (Moved q) _ _ q (
          choose_rule (Moved q) _ _ _ q (λ _. end_rule (Moved q) _ q (λ j. keep))
            (λ _.
              bind_Moved q (claim P now job id) _ (claim-Moved now id job found waits)
                λ started. (λ q' m. end_rule (Moved q) _ q' m)))
