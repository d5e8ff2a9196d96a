-- ===== src/Jobs/Durable/Writes.antt =====
-- What the transactions of the job queue's database (services/api/job_queue.py) do to its rows when
-- no call fails after its commit: an error leaves them, a success writes one.
use veri_doc.Prelude.{
  String, ◌≡◌, refl, Bool, true, false, List, [], ◌∷◌, Option, none, some, arith, Bool-cases, inl,
  inr,
}
use veri_doc.Prelude.Int.{ℤ}
use veri_doc.Prelude.Dict
use veri_doc.Prelude.Dict.{Dict, Distinct, Distinct-put, Distinct-remove}
use veri_doc.Jobs.Record.{JobRecord, Error, Result, ok, err}
use veri_doc.Jobs.Exec.{Exec, resume, ◌>>=◌, bind_assoc, modify_rule, return_rule, end_rule}
use veri_doc.Jobs.Codec.Job.{encode_job}
use veri_doc.Jobs.State.{JobQueue, saved, persist, delete_persisted, put_job}
use veri_doc.Jobs.Worker.{replace_job}
use veri_doc.Jobs.Durable.{
  Fault, no_fault, before_commit, after_commit, Row, Database, durable, save_row, upsert,
  delete_row, delete_with, next_fault, later_faults, key_taken,
}

-- No call fails after its commit.
unfoldable pub is_clean : List Fault → Bool
is_clean [] = true
is_clean (after_commit ∷ fs) = false
is_clean (_ ∷ fs) = is_clean fs

-- The rows have different job ids, and no call to come fails after its commit.
abbrev pub IsSound : Database → Type 0
IsSound db = (is_clean db.faults ≡ true) × Distinct db.rows

-- An error of the write leaves the rows, a success makes them `to`.
abbrev IsWrite : Dict Row → Dict Row → Option Error × Database → Type 0
IsWrite from to (some e, db) = (db.rows ≡ from) × (IsSound db)
IsWrite from to (none, db) = (db.rows ≡ to) × (IsSound db)

upsert-IsWrite :
    (fault : Fault) (job : JobRecord) (s : Option ℤ) (related : Option (Option Error))
    (rows : Dict Row) (fs : List Fault)
    → is_clean (fault ∷ fs) ≡ true
    → Distinct rows
    → IsWrite rows
        (Dict.put rows job.job_id (encode_job job, s))
        (upsert fault job s related rows fs)
unfolding upsert is_clean
upsert-IsWrite before_commit job s related rows fs h d = (refl, (h, d))
upsert-IsWrite no_fault job s (some (some e)) rows fs h d = elim (Bool-cases (key_taken rows job)) [
  | inl e ↦ rw e (refl, (h, d))
  | inr e ↦ rw e (refl, (h, d))
]
upsert-IsWrite no_fault job s (some none) rows fs h d = elim (Bool-cases (key_taken rows job)) [
  | inl e ↦ rw e (refl, (h, d))
  | inr e ↦ rw e (refl, (h, Distinct-put rows job.job_id (encode_job job, s) d))
]
upsert-IsWrite no_fault job s none rows fs h d = elim (Bool-cases (key_taken rows job)) [
  | inl e ↦ rw e (refl, (h, d))
  | inr e ↦ rw e (refl, (h, Distinct-put rows job.job_id (encode_job job, s) d))
]
upsert-IsWrite after_commit job s related rows fs h d = ground arith

delete_with-IsWrite :
    (fault : Fault) (id : String) (rows : Dict Row) (fs : List Fault)
    → is_clean (fault ∷ fs) ≡ true
    → Distinct rows
    → IsWrite rows (Dict.remove rows id) (delete_with fault id rows fs)
unfolding delete_with is_clean
delete_with-IsWrite before_commit id rows fs h d = (refl, (h, d))
delete_with-IsWrite no_fault id rows fs h d = (refl, (h, Distinct-remove rows id d))
delete_with-IsWrite after_commit id rows fs h d = ground arith

next_later :
    (fs : List Fault) → is_clean fs ≡ true → is_clean (next_fault fs ∷ later_faults fs) ≡ true
unfolding is_clean
next_later [] h = refl
next_later (f ∷ fs) h = h

module _ {A : Type 0} (Q : Result A × JobQueue Database → Type 0) where
  write_outcome :
      (from to : Dict Row) (r : Option Error × Database) (f : Unit {0} → Exec (JobQueue Database) A)
      (q : JobQueue Database)
      → IsWrite from to r
      → ((e : Error) (db : Database)
          → db.rows ≡ from
          → IsSound db
          → Q (err e, record q { store = db }))
      → ((db : Database) → db.rows ≡ to → IsSound db → Q (f tt (record q { store = db })))
      → Q (resume (saved r.0) f (record q { store = r.1 }))
  write_outcome from to (none, db) f q w fails goes = goes db w.0 w.1
  write_outcome from to (some e, db) f q w fails goes = fails e db w.0 w.1

  pub save_rule :
      (job : JobRecord) (s : Option ℤ) (related : Option (Option Error))
      (f : Unit {0} → Exec (JobQueue Database) A) (q : JobQueue Database)
      → IsSound q.store
      → ((e : Error) (db : Database)
          → db.rows ≡ q.store.rows
          → IsSound db
          → Q (err e, record q { store = db }))
      → ((db : Database)
          → db.rows ≡ Dict.put q.store.rows job.job_id (encode_job job, s)
          → IsSound db
          → Q (f tt (record q { store = db })))
      → Q ((persist durable job s related >>= f) q)
  unfolding persist ◌>>=◌ save_row
  save_rule job s related f q clean fails goes =
      let fs = q.store.faults in
      write_outcome q.store.rows (Dict.put q.store.rows job.job_id (encode_job job, s))
        (save_row job s related q.store) f q
        (upsert-IsWrite (next_fault fs) job s related q.store.rows (later_faults fs)
          (next_later fs clean.0) clean.1)
        fails goes

  pub erase_rule :
      (id : String) (f : Unit {0} → Exec (JobQueue Database) A) (q : JobQueue Database)
      → IsSound q.store
      → ((e : Error) (db : Database)
          → db.rows ≡ q.store.rows
          → IsSound db
          → Q (err e, record q { store = db }))
      → ((db : Database)
          → db.rows ≡ Dict.remove q.store.rows id
          → IsSound db
          → Q (f tt (record q { store = db })))
      → Q ((delete_persisted durable id >>= f) q)
  unfolding delete_persisted ◌>>=◌ delete_row
  erase_rule id f q clean fails goes =
      let fs = q.store.faults in
      write_outcome q.store.rows (Dict.remove q.store.rows id) (delete_row id q.store) f q
        (delete_with-IsWrite (next_fault fs) id q.store.rows (later_faults fs)
          (next_later fs clean.0) clean.1)
        fails goes

  pub rewrite_rule :
      (now : String) (changed : JobRecord) (s : Option ℤ) (related : Option (Option Error))
      (f : JobRecord → Exec (JobQueue Database) A) (q : JobQueue Database)
      → IsSound q.store
      → ((e : Error) (db : Database)
          → db.rows ≡ q.store.rows
          → IsSound db
          → Q (err e, record q { store = db }))
      → ((db : Database)
          → db.rows
            ≡ Dict.put q.store.rows changed.job_id
                (encode_job (record changed { updated_at = now }), s)
          → IsSound db
          → Q (
              f
                (record changed { updated_at = now })
                (put_job (record changed { updated_at = now }) (record q { store = db }))))
      → Q ((replace_job durable now changed s related >>= f) q)
  unfolding replace_job
  rewrite_rule now changed s related f q clean fails goes = rw bind_assoc (
      save_rule _ s related _ q clean fails λ db put clean'.
        rw bind_assoc (modify_rule Q _ _ _ (return_rule Q _ _ _ (goes db put clean'))))

module _ (Q : Result JobRecord × JobQueue Database → Type 0) where
  -- The same, where it is the last step.
  pub rewrite_end :
      (now : String) (changed : JobRecord) (s : Option ℤ) (related : Option (Option Error))
      (q : JobQueue Database)
      → IsSound q.store
      → ((e : Error) (db : Database)
          → db.rows ≡ q.store.rows
          → IsSound db
          → Q (err e, record q { store = db }))
      → ((db : Database)
          → db.rows
            ≡ Dict.put q.store.rows changed.job_id
                (encode_job (record changed { updated_at = now }), s)
          → IsSound db
          → Q (
            ok (record changed { updated_at = now }),
            put_job (record changed { updated_at = now }) (record q { store = db }),
          ))
      → Q (replace_job durable now changed s related q)
  unfolding replace_job
  rewrite_end now changed s related q clean fails goes =
      save_rule Q _ s related _ q clean fails
        λ db put clean'. modify_rule Q _ _ _ (end_rule Q _ _ (goes db put clean'))
