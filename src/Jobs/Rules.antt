-- ===== src/Jobs/Rules.antt =====
-- One rule for each step that a method of `JobQueue` (services/api/job_queue.py) is made of: what
-- holds of every outcome of the step and of the rest of the method holds of the whole.
use veri_doc.Prelude.{
  String, ◌≡◌, refl, Bool, true, false, Option, none, some, Option-cases, Bool-cases, inl, inr, ℕ,
  List, not, ◌&&◌,
}
use veri_doc.Prelude.Int.{ℤ, pos, ◌+ℤ◌}
use veri_doc.Prelude.Dict
use veri_doc.Prelude.Lists.{contains}
use veri_doc.Jobs.Record.{JobRecord, Error, Result, ok, err, key_error}
use veri_doc.Jobs.Exec.{
  Exec, resume, ◌>>=◌, raise_if, bind_assoc, modify_rule, return_rule, end_rule,
}
use veri_doc.Jobs.State.{
  Persistence, JobQueue, put_job, push_pending, saved, persist, delete_persisted,
  allocate_pending_sequence, append_pending,
}
use veri_doc.Jobs.Worker.{replace_job}
use veri_doc.Jobs.Request.{JobRequest}
use veri_doc.Jobs.Queue.{find_job, allocate_if, same_request, get_idempotent_job_locked}

module _ {Store A : Type 0} (Q : Result A × JobQueue Store → Type 0) where
  pub find_job_rule :
      (id : String) (f : JobRecord → Exec (JobQueue Store) A) (q : JobQueue Store)
      → Q (err (key_error id), q)
      → ((job : JobRecord) → Dict.get q.jobs id ≡ some job → Q (f job q))
      → Q ((find_job id >>= f) q)
  unfolding find_job ◌>>=◌
  find_job_rule id f q lost found = elim (Option-cases (Dict.get q.jobs id)) [
    | inl e ↦ rw (e, find_job, ◌>>=◌) lost
    | inr (job, e) ↦ rw (e, find_job, ◌>>=◌) (found job e)
  ]

  pub find_known_rule :
      (id : String) (job : JobRecord) (f : JobRecord → Exec (JobQueue Store) A) (q : JobQueue Store)
      → Dict.get q.jobs id ≡ some job
      → Q (f job q)
      → Q ((find_job id >>= f) q)
  unfolding find_job ◌>>=◌
  find_known_rule id job f q e found = rw (e, find_job, ◌>>=◌) found

  pub allocate_if_rule :
      (b : Bool) (current : Option ℤ) (f : Option ℤ → Exec (JobQueue Store) A) (q : JobQueue Store)
      → (b ≡ true
          → Q (
              f
                (some q.next_pending_sequence)
                (record q { next_pending_sequence = q.next_pending_sequence +ℤ pos 1 })))
      → (b ≡ false → Q (f current q))
      → Q ((allocate_if b current >>= f) q)
  unfolding allocate_if allocate_pending_sequence ◌>>=◌
  allocate_if_rule true current f q new old = new refl
  allocate_if_rule false current f q new old = old refl

module _ {Store A : Type 0} (Q : Result A × JobQueue Store → Type 0) where
  pub allocate_rule :
      (f : ℤ → Exec (JobQueue Store) A) (q : JobQueue Store)
      → Q (
          f q.next_pending_sequence
            (record q { next_pending_sequence = q.next_pending_sequence +ℤ pos 1 }))
      → Q ((allocate_pending_sequence >>= f) q)
  unfolding allocate_pending_sequence ◌>>=◌
  allocate_rule f q h = h

  pub append_pending_rule :
      (id : String) (s : ℤ) (f : Unit {0} → Exec (JobQueue Store) A) (q : JobQueue Store)
      → Q (f tt (push_pending id s q))
      → Q ((append_pending id (some s) >>= f) q)
  unfolding append_pending ◌>>=◌
  append_pending_rule id s f q h = h

module _ (P : Persistence) {A : Type 0} (Q : Result A × JobQueue P.Store → Type 0) where
  persist_outcome :
      (o : Option Error) (st : P.Store) (f : Unit {0} → Exec (JobQueue P.Store) A)
      (q : JobQueue P.Store)
      → ((e : Error) → Q (err e, record q { store = st }))
      → Q (f tt (record q { store = st }))
      → Q (resume (saved o) f (record q { store = st }))
  persist_outcome none st f q fails goes = goes
  persist_outcome (some e) st f q fails goes = fails e

  pub persist_rule :
      (job : JobRecord) (s : Option ℤ) (related : Option P.Related)
      (f : Unit {0} → Exec (JobQueue P.Store) A) (q : JobQueue P.Store)
      → ((e : Error) (st : P.Store) → Q (err e, record q { store = st }))
      → ((st : P.Store) → Q (f tt (record q { store = st })))
      → Q ((persist P job s related >>= f) q)
  unfolding persist ◌>>=◌
  persist_rule job s related f q fails goes =
      let r = P.save job s related q.store in
      persist_outcome r.0 r.1 f q (λ e. fails e r.1) (goes r.1)

  pub delete_rule :
      (id : String) (f : Unit {0} → Exec (JobQueue P.Store) A) (q : JobQueue P.Store)
      → ((e : Error) (st : P.Store) → Q (err e, record q { store = st }))
      → ((st : P.Store) → Q (f tt (record q { store = st })))
      → Q ((delete_persisted P id >>= f) q)
  unfolding delete_persisted ◌>>=◌
  delete_rule id f q fails goes =
      let r = P.delete id q.store in persist_outcome r.0 r.1 f q (λ e. fails e r.1) (goes r.1)

  -- `f` runs on the job as it was stored.
  pub replace_rule :
      (now : String) (changed : JobRecord) (s : Option ℤ) (related : Option P.Related)
      (f : JobRecord → Exec (JobQueue P.Store) A) (q : JobQueue P.Store)
      → ((e : Error) (st : P.Store) → Q (err e, record q { store = st }))
      → ((st : P.Store)
          → Q (
              f
                (record changed { updated_at = now })
                (put_job (record changed { updated_at = now }) (record q { store = st }))))
      → Q ((replace_job P now changed s related >>= f) q)
  unfolding replace_job
  replace_rule now changed s related f q fails goes = rw bind_assoc (
      persist_rule _ s related _ q fails
        λ st. rw bind_assoc (modify_rule Q _ _ _ (return_rule Q _ _ _ (goes st))))

module _ (P : Persistence) (Q : Result JobRecord × JobQueue P.Store → Type 0) where
  -- The same, where it is the last step.
  pub replace_end :
      (now : String) (changed : JobRecord) (s : Option ℤ) (related : Option P.Related)
      (q : JobQueue P.Store)
      → ((e : Error) (st : P.Store) → Q (err e, record q { store = st }))
      → ((st : P.Store)
          → Q (
            ok (record changed { updated_at = now }),
            put_job (record changed { updated_at = now }) (record q { store = st }),
          ))
      → Q (replace_job P now changed s related q)
  unfolding replace_job
  replace_end now changed s related q fails goes =
      persist_rule P Q _ s related _ q fails λ st. modify_rule Q _ _ _ (end_rule Q _ _ (goes st))

-- The lookup of a request's key changes nothing: it raises, finds a matching job, or finds that
-- the key is free.
module _ (sha256 : List ℕ → String) {Store A : Type 0}
    (Q : Result A × JobQueue Store → Type 0) where
  pub idempotent_rule :
      (unpublished compare : Bool) (r : JobRequest) (f : Option JobRecord → Exec (JobQueue Store) A)
      (q : JobQueue Store)
      → ((e : Error) → Q (err e, q))
      → ((id : String) (job : JobRecord)
          → Dict.get q.idempotency_index r.idempotency_key ≡ some id
          → (contains q.unpublished_job_ids id && not unpublished) ≡ false
          → Dict.get q.jobs id ≡ some job
          → same_request sha256 compare job r ≡ true
          → Q (f (some job) q))
      → (Dict.get q.idempotency_index r.idempotency_key ≡ none → Q (f none q))
      → Q ((get_idempotent_job_locked sha256 unpublished compare r >>= f) q)
  unfolding get_idempotent_job_locked ◌>>=◌ find_job
  idempotent_rule unpublished compare r f q fails matched free =
      elim (Option-cases (Dict.get q.idempotency_index r.idempotency_key)) [
        | inl e ↦ rw (e, get_idempotent_job_locked) (free e)
        | inr (id, e) ↦
            rw (e, get_idempotent_job_locked)
              (elim (Bool-cases (contains q.unpublished_job_ids id && not unpublished)) [
                | inl hidden ↦ rw (hidden, raise_if) (fails _)
                | inr shown ↦
                    rw (shown, raise_if)
                      (elim (Option-cases (Dict.get q.jobs id)) [
                        | inl lost ↦ rw (lost, find_job) (fails _)
                        | inr (job, found) ↦
                            rw (found, find_job)
                              (elim (Bool-cases (same_request sha256 compare job r)) [
                                | inl same ↦ rw same (matched id job e shown found same)
                                | inr other ↦ rw other (fails _)
                              ])
                      ])
              ])
      ]
