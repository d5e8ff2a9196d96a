-- ===== src/Jobs/Invariant/Change.antt =====
-- A job that a method of `JobQueue` (services/api/job_queue.py) replaces, requeues or claims.
use veri_doc.Prelude.{
  String, ◌≡◌, refl, sym, ◌∙◌, ◌⊎◌, inl, inr, Bool, Option, eq_iff, true, false, none, some, arith,
}
use veri_doc.Prelude.Int.{ℤ, pos, ◌+ℤ◌, ◌<ℤ◌, int_laws}
use veri_doc.Prelude.Dict
use veri_doc.Prelude.Dict.{get-put, get-any-values}
use veri_doc.Prelude.Lists.{contains}
use veri_doc.Jobs.Record.{JobRecord, Result, ok, err, is_queued, queued, running}
use veri_doc.Jobs.Exec.{Exec, resume, ◌>>=◌, gets_rule, modify_rule, end_rule}
use veri_doc.Jobs.State.{
  Persistence, JobQueue, has_active_high_quality_job, put_job, drop_pending, push_pending,
}
use veri_doc.Jobs.Worker.{claim, requeue}
use veri_doc.Jobs.Rules.{replace_rule, allocate_rule, append_pending_rule}
use veri_doc.Jobs.Invariant.{Inv, is_active}
use veri_doc.Jobs.Invariant.Tables.{
  Inv-set_store, Inv-put_job, Inv-drop_pending, Inv-set_next, Inv-push_pending,
}
use veri_doc.Jobs.Invariant.Removal.{not_pending-drop_pending}
use veri_doc.Jobs.Invariant.Order.{AllBefore}

pub true_not_false : {b : Bool} → b ≡ true → b ≡ false → ⊥
true_not_false p q = cc

pub no_active-not_active :
    {Store : Type 0} (q : JobQueue Store) (id : String) (job : JobRecord)
    → has_active_high_quality_job q ≡ false
    → Dict.get q.jobs id ≡ some job
    → is_active job ≡ false
unfolding has_active_high_quality_job
no_active-not_active q id job none_active found =
    get-any-values is_active q.jobs id job none_active found

abbrev pub Keeps : {A Store : Type 0} → Result A × JobQueue Store → Type 0
Keeps r = Inv r.1

resume-Keeps :
    {Store A B : Type 0} (r : Result A) (f : A → Exec (JobQueue Store) B) (q : JobQueue Store)
    → Inv q
    → ((a : A) (q' : JobQueue Store) → Inv q' → Keeps (f a q'))
    → Keeps (resume r f q)
resume-Keeps (ok a) f q h rest = rest a q h
resume-Keeps (err e) f q h rest = h

-- A step that keeps the invariant, before a rest that keeps it.
pub bind_Keeps :
    {Store A B : Type 0} (m : Exec (JobQueue Store) A) (f : A → Exec (JobQueue Store) B)
    (q : JobQueue Store)
    → Keeps (m q)
    → ((a : A) (q' : JobQueue Store) → Inv q' → Keeps (f a q'))
    → Keeps ((m >>= f) q)
unfolding ◌>>=◌
bind_Keeps m f q h rest = resume-Keeps (m q).0 f (m q).1 h rest

-- The two writes of a claimed job do not depend on their order.
drop_pending-put_job :
    {Store : Type 0} (id : String) (job : JobRecord) (q : JobQueue Store)
    → drop_pending id (put_job job q) ≡ put_job job (drop_pending id q)
unfolding drop_pending put_job
drop_pending-put_job id job q = refl

module _ {Store : Type 0} (q : JobQueue Store) (h : Inv q) (id : String) (old : JobRecord)
    (found : Dict.get q.jobs id ≡ some old) where
  -- Only a queued job is pending or unpublished.
  pub not_pending : is_queued old.status ≡ false → contains q.pending_job_ids id ≡ false
  not_pending r = ground (arith, h.pending_queued id)

  pub not_unpublished : is_queued old.status ≡ false → contains q.unpublished_job_ids id ≡ false
  not_unpublished r = ground (arith, h.unpublished_queued id)

  -- A job is replaced by one that is active only if it was active, or if no other job is.
  pub Inv-change :
      (job : JobRecord)
      → job.job_id ≡ old.job_id
      → job.idempotency_key ≡ old.idempotency_key
      → (contains q.pending_job_ids id ≡ true → job.status ≡ queued)
      → (contains q.unpublished_job_ids id ≡ true → job.status ≡ queued)
      → ((is_active job ≡ true → is_active old ≡ true)
          ⊎ (is_active job ≡ true → has_active_high_quality_job q ≡ false))
      → Inv (put_job job q)
  Inv-change job same_id same_key waits hides alone =
      let here : job.job_id ≡ id = same_id ∙ h.keyed id old found in
      Inv-put_job q h job old (rw here found) same_key (rw here waits) (rw here hides)
        λ i b active e b_active. elim alone [
          | inl was ↦ h.single_high_quality i id b old e found b_active (was active) ∙ sym here
          | inr idle ↦ absurd (true_not_false b_active (no_active-not_active q i b (idle active) e))
        ]

-- A running job takes the place of a job that is out of the deque.
claimed :
    {Store : Type 0} (q : JobQueue Store)
    → Inv q
    → (id : String) (old : JobRecord) → Dict.get q.jobs id ≡ some old
    → (job : JobRecord) → job.job_id ≡ old.job_id
    → job.idempotency_key ≡ old.idempotency_key
    → contains q.unpublished_job_ids id ≡ false
    → (is_active job ≡ true → is_active old ≡ true)
    → Inv (put_job job (drop_pending id q))
unfolding drop_pending
claimed q h id old found job same_id same_key public was =
    Inv-change (drop_pending id q) (Inv-drop_pending q h id) id old found job same_id same_key
      (λ c. absurd (true_not_false c (not_pending-drop_pending q h id)))
      (λ c. absurd (true_not_false c public)) (inl was)

-- A job that was put back as queued goes to the end of the deque.
Inv-push_changed :
    {Store : Type 0} (q : JobQueue Store) (job : JobRecord) (id : String) (s : ℤ)
    → Inv (put_job job q)
    → job.job_id ≡ id
    → job.status ≡ queued
    → contains q.pending_job_ids id ≡ false
    → contains q.unpublished_job_ids id ≡ false
    → AllBefore q.pending_sequences s q.pending_job_ids
    → s <ℤ q.next_pending_sequence
    → Inv (push_pending id s (put_job job q))
unfolding put_job
Inv-push_changed q job id s h same waits idle public above below =
    Inv-push_pending (put_job job q) h id s
      (ground (arith, get-put q.jobs job.job_id id job, eq_iff job.job_id id)) idle public above
      below

module _ (P : Persistence) (q : JobQueue P.Store) (h : Inv q) (id : String) (old : JobRecord)
    (found : Dict.get q.jobs id ≡ some old) where
  -- A published job that is not pending goes back to the queue.
  pub requeue-Inv :
      (now : String) (job : JobRecord) (related : Option P.Related)
      → job.job_id ≡ old.job_id
      → job.idempotency_key ≡ old.idempotency_key
      → job.status ≡ queued
      → contains q.pending_job_ids id ≡ false
      → contains q.unpublished_job_ids id ≡ false
      → ((is_active job ≡ true → is_active old ≡ true)
          ⊎ (is_active job ≡ true → has_active_high_quality_job q ≡ false))
      → Keeps (requeue P now job id related q)
  unfolding requeue has_active_high_quality_job
  requeue-Inv now job related same_id same_key waits idle public alone =
      let next = q.next_pending_sequence +ℤ pos 1 in
      let q' = record q { next_pending_sequence = next } in
      let h' = Inv-set_next q h next (omega int_laws) in
      allocate_rule Keeps _ q (
        replace_rule P Keeps now job (some q.next_pending_sequence) related _ q'
          (λ e st. Inv-set_store q' h' st)
          λ st. append_pending_rule Keeps id q.next_pending_sequence _ _ (
            end_rule Keeps _ _ (
              Inv-push_changed (record q' { store = st }) (record job { updated_at = now }) id
                q.next_pending_sequence
                (Inv-change (record q' { store = st }) (Inv-set_store q' h' st) id old found
                  (record job { updated_at = now }) same_id same_key (λ _. waits) (λ _. waits)
                  alone)
                (same_id ∙ h.keyed id old found) waits idle public h.before_next (omega int_laws))))

  -- A queued, published job starts to run and leaves the deque.
  pub claim-Inv :
      (now : String)
      → is_queued old.status ≡ true
      → contains q.unpublished_job_ids id ≡ false
      → Keeps (claim P now old id q)
  unfolding claim
  claim-Inv now waits public = gets_rule Keeps _ _ q (
      replace_rule P Keeps now _ _ none _ q (λ e st. Inv-set_store q h st)
        λ st. modify_rule Keeps _ _ _ (
          end_rule Keeps _ _ (
            let job = record old { status = running; updated_at = now } in
            let q' = record q { store = st } in
            rw (drop_pending-put_job id job q') (
              claimed q' (Inv-set_store q h st) id old found job refl refl public
                (λ a. ground arith)))))
