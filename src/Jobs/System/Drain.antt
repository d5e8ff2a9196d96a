-- ===== src/Jobs/System/Drain.antt =====
-- A worker of the job queue (services/api/job_queue.py) that starts the next job and reports its
-- success, again and again, on a store that does not fail.
use veri_doc.Prelude.{
  ℕ, zero, suc, String, ◌≡◌, refl, ◌∙◌, List, [], ◌∷◌, Option, none, some, true, arith, eq_iff,
  ◌==◌, Bool-cases, inl, inr,
}
use veri_doc.Prelude.Dict
use veri_doc.Prelude.Dict.{get-put}
use veri_doc.Prelude.Lists.{length, contains}
use veri_doc.Py.Value.{Fields}
use veri_doc.Jobs.Record.{JobRecord, Result, ok, running, succeeded}
use veri_doc.Jobs.Exec.{bind_assoc, return_rule, raise_if_rule}
use veri_doc.Jobs.State.{Persistence, JobQueue, put_job}
use veri_doc.Jobs.Worker.{start_next_job, mark_succeeded}
use veri_doc.Jobs.Rules.{find_known_rule}
use veri_doc.Jobs.Saved.{Saves, replace_saved_end}
use veri_doc.Jobs.Invariant.{Inv}
use veri_doc.Jobs.Invariant.Methods.{start_next_job-Inv, mark_succeeded-Inv}
use veri_doc.Jobs.System.{start_next, succeed, Reach, here, next}
use veri_doc.Jobs.System.Service.{start_next_job-fifo, started}
use veri_doc.Jobs.System.Calls.{succeeded_forever}

module _ (P : Persistence) where
  abbrev finish : String → Fields → Result (Option JobRecord) → JobQueue P.Store → JobQueue P.Store
  finish now result (ok (some job)) q = (mark_succeeded P now job.job_id result q).1
  finish now result _ q = q

  -- One round: the next job is started, run and reported.
  unfoldable pub work_once : String → Fields → JobQueue P.Store → JobQueue P.Store
  work_once now result q = let r = start_next_job P now q in finish now result r.0 r.1

  unfoldable pub work : String → Fields → ℕ → JobQueue P.Store → JobQueue P.Store
  work now result zero q = q
  work now result (suc rounds) q = work now result rounds (work_once now result q)

  abbrev pub HasSucceeded : JobQueue P.Store → String → Type 0
  HasSucceeded q id = (job : JobRecord) × (Dict.get q.jobs id ≡ some job) × (job.status ≡ succeeded)

  finish_as :
      (R : JobQueue P.Store → Type 0) (now : String) (result : Fields) (id : String)
      (o : Result (Option JobRecord)) (job : JobRecord) (q : JobQueue P.Store)
      → o ≡ ok (some job)
      → job.job_id ≡ id
      → R (mark_succeeded P now id result q).1
      → R (finish now result o q)
  finish_as R now result id o job q out own done = rw (out, own) done

  Reach-trans :
      (sha256 : List ℕ → String) {q s t : JobQueue P.Store}
      → Reach sha256 P q s
      → Reach sha256 P s t
      → Reach sha256 P q t
  Reach-trans sha256 r here = r
  Reach-trans sha256 r (next more step) = next (Reach-trans sha256 r more) step

  module _ (saves : Saves P) where
    -- A running job succeeds, and the deque is left.
    abbrev Succeeds : JobQueue P.Store → String → Result JobRecord × JobQueue P.Store → Type 0
    Succeeds q id r = HasSucceeded r.1 id × (r.1.pending_job_ids ≡ q.pending_job_ids)

    mark_succeeded-Succeeds :
        (q : JobQueue P.Store)
        → Inv q
        → (now id : String) (result : Fields) (job : JobRecord) → Dict.get q.jobs id ≡ some job
        → job.status ≡ running
        → Succeeds q id (mark_succeeded P now id result q)
    unfolding mark_succeeded put_job
    mark_succeeded-Succeeds q h now id result job found runs =
        let S = Succeeds q id in
        let done : JobRecord = record job {
          status = succeeded;
          result = some result;
          error = none;
          updated_at = now;
        } in
        let at : Dict.get (Dict.put q.jobs job.job_id done) id ≡ some done =
          ground (
            arith,
            get-put q.jobs job.job_id id done,
            eq_iff job.job_id id,
            h.keyed id job found,
          ) in
        rw bind_assoc (
          find_known_rule S id job _ q found (
            rw bind_assoc (
              raise_if_rule S _ _ _ q (λ idle. ground arith)
                λ _.
                  return_rule S _ _ q
                    (replace_saved_end P saves S now _ none q λ st. ((done, at, refl), refl)))))

    -- What a round does to the head of the deque.
    abbrev Rounds :
        (List ℕ → String) → JobQueue P.Store → String → List String → JobQueue P.Store → Type 0
    Rounds sha256 q id rest q' =
        (q'.pending_job_ids ≡ rest) × Inv q' × HasSucceeded q' id × Reach sha256 P q q'

    work_once-Rounds :
        (sha256 : List ℕ → String) (q : JobQueue P.Store)
        → Inv q
        → (now : String) (result : Fields) (id : String) (rest : List String)
        → q.pending_job_ids ≡ id ∷ rest
        → Rounds sha256 q id rest (work_once now result q)
    unfolding work_once
    work_once-Rounds sha256 q h now result id rest head =
        let (job, found, waits, out, runs, left) =
          start_next_job-fifo P saves q h now id rest head in
        let r = start_next_job P now q in
        let own : job.job_id ≡ id = h.keyed id job found in
        let inv = start_next_job-Inv P q h now in
        let done = mark_succeeded-Succeeds r.1 inv now id result (started now job) runs refl in
        let rounds : Rounds sha256 q id rest (mark_succeeded P now id result r.1).1 = (
          done.1 ∙ left,
          mark_succeeded-Inv P r.1 inv now id result,
          done.0,
          next (next here (start_next now)) (succeed now id result),
        ) in
        finish_as (Rounds sha256 q id rest) now result id r.0 (started now job) r.1 out own rounds

    work_all :
        (sha256 : List ℕ → String) (now : String) (result : Fields) (ids : List String)
        (q : JobQueue P.Store)
        → Inv q
        → q.pending_job_ids ≡ ids
        → let q' = work now result (length ids) q in
          (q'.pending_job_ids ≡ [])
          × Inv q'
          × Reach sha256 P q q'
          × ((id : String) → contains ids id ≡ true → HasSucceeded q' id)
    unfolding work contains
    work_all sha256 now result [] q h same = (same, h, here, λ id c. ground arith)
    work_all sha256 now result (id ∷ rest) q h same =
        let (left, inv, done, reach) = work_once-Rounds sha256 q h now result id rest same in
        let q1 = work_once now result q in
        let (empty, inv', reach', all) = work_all sha256 now result rest q1 inv left in
        (
          empty,
          inv',
          Reach-trans sha256 reach reach',
          λ other c. elim (Bool-cases (id == other)) [
            | inl hit ↦
                let (job, found, status) = done in
                let same' : id ≡ other = (eq_iff id other).0 hit in
                rw (← same')
                  (job, succeeded_forever sha256 P inv reach' id job found status, status)
            | inr miss ↦ all other (ground arith)
          ],
        )

    -- In a consistent queue whose store saves, as many rounds of start_next_job and mark_succeeded
    -- as jobs wait leave the deque empty, and every job that waited has succeeded.
    pub work-done :
        (now : String) (result : Fields) (q : JobQueue P.Store)
        → Inv q
        → let q' = work now result (length q.pending_job_ids) q in
          (q'.pending_job_ids ≡ [])
          × ((id : String) → contains q.pending_job_ids id ≡ true → HasSucceeded q' id)
    work-done now result q h =
        let (empty, inv, reach, all) =
          work_all (λ content. "") now result q.pending_job_ids q h refl in
        (empty, all)
