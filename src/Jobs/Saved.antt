-- ===== src/Jobs/Saved.antt =====
-- The steps of `JobQueue` (services/api/job_queue.py) over a store that does not fail.
use veri_doc.Prelude.{String, ◌≡◌, refl, Option, none, some}
use veri_doc.Prelude.Int.{ℤ}
use veri_doc.Jobs.Record.{JobRecord, Error, Result, ok, value_error}
use veri_doc.Jobs.Exec.{Exec, resume, ◌>>=◌, bind_assoc, modify_rule, return_rule, end_rule}
use veri_doc.Jobs.State.{Persistence, JobQueue, put_job, saved, persist}
use veri_doc.Jobs.Worker.{replace_job}

-- Saving a job alone, with no related write, succeeds.
abbrev pub Saves : Persistence → Type 0
Saves P = (job : JobRecord) (s : Option ℤ) (st : P.Store) → (P.save job s none st).0 ≡ none

-- `_persist` and `_delete_persisted` of a queue without a database.
unfoldable pub volatile_save :
    JobRecord → Option ℤ → Option (Unit {0}) → Unit {0} → Option Error × Unit {0}
volatile_save job s none st = (none, st)
volatile_save job s (some _) st =
    (some (value_error "related persistence requires a durable job queue"), st)

abbrev pub volatile : Persistence
volatile = record {
  Store = Unit {0};
  Related = Unit {0};
  save = volatile_save;
  delete = λ job_id st. (none, st);
}

pub Saves-volatile : Saves volatile
unfolding volatile_save
Saves-volatile job s st = refl

module _ (P : Persistence) (saves : Saves P) {A : Type 0}
    (Q : Result A × JobQueue P.Store → Type 0) where
  saved_outcome :
      (o : Option Error) (st : P.Store) (f : Unit {0} → Exec (JobQueue P.Store) A)
      (q : JobQueue P.Store)
      → o ≡ none
      → Q (f tt (record q { store = st }))
      → Q (resume (saved o) f (record q { store = st }))
  saved_outcome none st f q e goes = goes
  saved_outcome (some x) st f q e goes = cc

  persist_saved :
      (job : JobRecord) (s : Option ℤ) (f : Unit {0} → Exec (JobQueue P.Store) A)
      (q : JobQueue P.Store)
      → ((st : P.Store) → Q (f tt (record q { store = st })))
      → Q ((persist P job s none >>= f) q)
  unfolding persist ◌>>=◌
  persist_saved job s f q goes =
      let r = P.save job s none q.store in
      saved_outcome r.0 r.1 f q (saves job s q.store) (goes r.1)

  pub replace_saved :
      (now : String) (changed : JobRecord) (s : Option ℤ)
      (f : JobRecord → Exec (JobQueue P.Store) A) (q : JobQueue P.Store)
      → ((st : P.Store)
          → Q (
              f
                (record changed { updated_at = now })
                (put_job (record changed { updated_at = now }) (record q { store = st }))))
      → Q ((replace_job P now changed s none >>= f) q)
  unfolding replace_job
  replace_saved now changed s f q goes = rw bind_assoc (
      persist_saved _ s _ q
        λ st. rw bind_assoc (modify_rule Q _ _ _ (return_rule Q _ _ _ (goes st))))

module _ (P : Persistence) (saves : Saves P)
    (Q : Result JobRecord × JobQueue P.Store → Type 0) where
  pub replace_saved_end :
      (now : String) (changed : JobRecord) (s : Option ℤ) (q : JobQueue P.Store)
      → ((st : P.Store)
          → Q (
            ok (record changed { updated_at = now }),
            put_job (record changed { updated_at = now }) (record q { store = st }),
          ))
      → Q (replace_job P now changed s none q)
  unfolding replace_job
  replace_saved_end now changed s q goes =
      persist_saved P saves Q _ s _ q λ st. modify_rule Q _ _ _ (end_rule Q _ _ (goes st))
