-- ===== src/Jobs/Durable/Calls.antt =====
-- Every call of a durable `JobQueue` (services/api/job_queue.py) that runs jobs writes a job to the
-- tables and to its row, or to neither.
use veri_doc.Prelude.{
  String, ◌≡◌, refl, Bool, false, Option, none, some, arith, eq_iff, ◌==◌, if◌then◌else◌,
}
use veri_doc.Prelude.Int.{ℤ}
use veri_doc.Prelude.Dict
use veri_doc.Prelude.Dict.{Dict, get-put, get-remove}
use veri_doc.Prelude.Lists.{contains}
use veri_doc.Py.Value.{Fields}
use veri_doc.Jobs.Record.{JobRecord, Error, Result, ok, err, is_queued, running}
use veri_doc.Jobs.Exec.{
  Exec, resume, ◌>>=◌, raise_if_rule, return_rule, gets_rule, choose_rule, end_rule, bind_assoc,
  modify_rule,
}
use veri_doc.Jobs.Codec.Job.{encode_job}
use veri_doc.Jobs.State.{JobQueue, put_job, drop_pending, push_pending}
use veri_doc.Jobs.Worker.{
  claim, claim_head, start_job, start_next_job, requeue, mark_succeeded, mark_failed,
  retry_failed_job,
}
use veri_doc.Jobs.Rules.{find_job_rule, allocate_rule, append_pending_rule}
use veri_doc.Jobs.Invariant.{Inv}
use veri_doc.Jobs.Invariant.Head.{start_next_rule}
use veri_doc.Jobs.Invariant.Change.{not_unpublished}
use veri_doc.Jobs.Durable.{Database, durable}
use veri_doc.Jobs.Durable.Matched.{Matched, Same-Matched, Matched-saved}
use veri_doc.Jobs.Durable.Writes.{IsSound, rewrite_rule, rewrite_end}

-- The rows answer to the tables, and no later call fails after its commit.
abbrev pub Faithful : JobQueue Database → Type 0
Faithful q = Matched q × (IsSound q.store)

abbrev pub Kept : {A : Type 0} → Result A × JobQueue Database → Type 0
Kept r = Faithful r.1

resume-Kept :
    {A B : Type 0} (r : Result A) (f : A → Exec (JobQueue Database) B) (q : JobQueue Database)
    → Faithful q
    → ((a : A) (q' : JobQueue Database) → Faithful q' → Kept (f a q'))
    → Kept (resume r f q)
resume-Kept (ok a) f q h rest = rest a q h
resume-Kept (err e) f q h rest = h

pub bind_Kept :
    {A B : Type 0} (m : Exec (JobQueue Database) A) (f : A → Exec (JobQueue Database) B)
    (q : JobQueue Database)
    → Kept (m q)
    → ((a : A) (q' : JobQueue Database) → Faithful q' → Kept (f a q'))
    → Kept ((m >>= f) q)
unfolding ◌>>=◌
bind_Kept m f q h rest = resume-Kept (m q).0 f (m q).1 h rest

pub untouched :
    (q : JobQueue Database) (next : ℤ) (db : Database)
    → Matched q
    → db.rows ≡ q.store.rows
    → IsSound db
    → Faithful (record q { next_pending_sequence = next; store = db })
untouched q next db h rows clean = (Same-Matched q _ h (refl, refl, refl, rows), clean)

-- A write under a key that is another's.
pub get-put_as :
    {V : Type 0} {k id : String}
    → k ≡ id
    → (d : Dict V) (v : V) (j : String)
    → Dict.get (Dict.put d k v) j ≡ (if id == j then some v else Dict.get d j)
get-put_as {k} {id} same d v j = rw same (get-put d id j v)

module _ (q : JobQueue Database) (h : Inv q) (g : Faithful q) where
  raised :
      (e : Error) (db : Database)
      → db.rows ≡ q.store.rows
      → IsSound db
      → Faithful (record q { store = db })
  raised e db = untouched q q.next_pending_sequence db g.0

  -- A published job that `_replace` writes, in a state where it is not waiting.
  replaced-Faithful :
      (id : String) (job : JobRecord)
      → job.job_id ≡ id
      → is_queued job.status ≡ false
      → contains q.unpublished_job_ids id ≡ false
      → (db : Database) → db.rows ≡ Dict.put q.store.rows job.job_id (encode_job job, none)
      → IsSound db
      → Faithful (put_job job (record q { store = db }))
  unfolding put_job
  replaced-Faithful id job own idle public db rows clean = (
    Matched-saved q _ id g.0 job none (Dict.get q.pending_sequences id)
        (λ j. get-put_as own q.jobs job j) (λ j. ground (arith, eq_iff id j))
        (λ j. ground (arith, eq_iff id j))
        (λ j. rw rows (get-put_as own q.store.rows (encode_job job, none) j))
        (λ waits. ground arith),
    clean,
  )

  requeue-Kept :
      (now : String) (changed : JobRecord) (id : String) (related : Option (Option Error))
      → changed.job_id ≡ id
      → contains q.unpublished_job_ids id ≡ false
      → Kept (requeue durable now changed id related q)
  unfolding requeue put_job push_pending
  requeue-Kept now changed id related own public = allocate_rule Kept _ q (
      rewrite_rule Kept now changed _ related _ _ g.1 (λ e db. untouched q _ db g.0)
        λ db rows clean. append_pending_rule Kept id q.next_pending_sequence _ _ (
          end_rule Kept _ _ (
            Matched-saved q _ id g.0 (record changed { updated_at = now })
                (some q.next_pending_sequence) (some q.next_pending_sequence)
                (λ j. get-put_as own q.jobs _ j) (λ j. get-put q.pending_sequences id j _)
                (λ j. ground (arith, eq_iff id j)) (λ j. rw rows (get-put_as own q.store.rows _ j))
                (λ _. refl),
            clean,
          )))

  claim-Kept :
      (now : String) (job : JobRecord) (id : String)
      → job.job_id ≡ id
      → contains q.unpublished_job_ids id ≡ false
      → Kept (claim durable now job id q)
  unfolding claim put_job drop_pending
  claim-Kept now job id own public = gets_rule Kept _ _ q (
      rewrite_rule Kept now (record job { status = running }) _ none _ q g.1 raised
        λ db rows clean. modify_rule Kept _ _ _ (
          end_rule Kept _ _ (
            Matched-saved q _ id g.0 (record job { status = running; updated_at = now })
                (Dict.get q.pending_sequences id) none (λ j. get-put_as own q.jobs _ j)
                (λ j. get-remove q.pending_sequences id j) (λ j. ground (arith, eq_iff id j))
                (λ j. rw rows (get-put_as own q.store.rows _ j)) (λ waits. ground arith),
            clean,
          )))

  pub mark_succeeded-Kept :
      (now id : String) (result : Fields) → Kept (mark_succeeded durable now id result q)
  unfolding mark_succeeded
  mark_succeeded-Kept now id result = rw bind_assoc (
      find_job_rule Kept id _ q g λ job found. rw bind_assoc (
        raise_if_rule Kept _ _ _ q (λ _. g)
          λ runs. return_rule Kept _ _ q (
            rewrite_end Kept now _ none none q g.1 raised (
              replaced-Faithful id _ (h.keyed id job found) refl
                (not_unpublished q h id job found (ground arith))))))

  pub mark_failed-Kept :
      (now id error : String) (retryable : Bool)
      → Kept (mark_failed durable now id error retryable q)
  unfolding mark_failed
  mark_failed-Kept now id error retryable = rw bind_assoc (
      find_job_rule Kept id _ q g λ job found. rw bind_assoc (
        raise_if_rule Kept _ _ _ q (λ _. g)
          λ runs.
            let own = h.keyed id job found in
            let public = not_unpublished q h id job found (ground arith) in
            return_rule Kept _ _ q (
              gets_rule Kept _ _ q (
                choose_rule Kept _ _ _ q (λ _. requeue-Kept now _ id none own public)
                  (λ _.
                    rewrite_end Kept now _ none none q g.1 raised
                      (replaced-Faithful id _ own refl public))))))

  pub retry_failed_job-Kept :
      (now id : String) (related : Option (Option Error))
      → Kept (retry_failed_job durable now id related q)
  unfolding retry_failed_job
  retry_failed_job-Kept now id related = find_job_rule Kept id _ q g λ job found.
      raise_if_rule Kept _ _ _ q (λ _. g)
        λ failed.
          raise_if_rule Kept _ _ _ q (λ _. g)
            λ _. gets_rule Kept _ _ q (
              raise_if_rule Kept _ _ _ q (λ _. g)
                λ _.
                  requeue-Kept now _ id related (h.keyed id job found)
                    (not_unpublished q h id job found (ground arith)))

  pub start_job-Kept : (now id : String) → Kept (start_job durable now id q)
  unfolding start_job
  start_job-Kept now id = find_job_rule Kept id _ q g λ job found. gets_rule Kept _ _ q (
      raise_if_rule Kept _ _ _ q (λ _. g)
        λ public.
          raise_if_rule Kept _ _ _ q (λ _. g)
            λ _. gets_rule Kept _ _ q (
              raise_if_rule Kept _ _ _ q (λ _. g)
                λ _. claim-Kept now job id (h.keyed id job found) public))

  claim_head-Kept :
      (now id : String) (job : JobRecord)
      → job.job_id ≡ id
      → contains q.unpublished_job_ids id ≡ false
      → Kept (claim_head durable now job id q)
  unfolding claim_head
  claim_head-Kept now id job own public = gets_rule Kept _ _ q (
      choose_rule Kept _ _ _ q (λ _. end_rule Kept _ q g)
        (λ _.
          bind_Kept (claim durable now job id) _ q (claim-Kept now job id own public)
            λ started q' g'. end_rule Kept _ q' g'))

  pub start_next_job-Kept : (now : String) → Kept (start_next_job durable now q)
  start_next_job-Kept now =
      start_next_rule durable Kept q h now (λ _. g)
        λ id rest job same found waits public.
          claim_head-Kept now id job (h.keyed id job found) public
