-- ===== src/Jobs/System/Births.antt =====
-- How jobs come into the queue and leave it again (services/api/job_queue.py): the moves of the
-- methods that create, publish and discard.
use veri_doc.Prelude.{
  ℕ, String, ◌≡◌, refl, Bool, true, false, ◌&&◌, List, Option, none, some, arith, eq_iff,
  Bool-cases, inl, inr, ◌==◌,
}
use veri_doc.Prelude.Int.{ℤ}
use veri_doc.Prelude.Dict
use veri_doc.Prelude.Dict.{get-put, get-remove}
use veri_doc.Py.Value.{Fields}
use veri_doc.Jobs.Record.{JobRecord, Result, is_queued}
use veri_doc.Jobs.Request.{JobRequest, normalize_job_request}
use veri_doc.Jobs.Exec.{
  raise_if_rule, gets_rule, choose_rule, end_rule, raise_rule, modify_rule, modify, when_rule,
  lift_rule,
}
use veri_doc.Jobs.State.{Persistence, JobQueue, register, forget_job, mark_published, push_pending}
use veri_doc.Jobs.Queue.{
  Fresh, new_job, create_job_locked, finish_publish, publish_job, enqueue_job, discard_found,
  discard_queued_job, make_job, create_job, get_or_create_job,
}
use veri_doc.Jobs.Rules.{
  find_job_rule, allocate_if_rule, persist_rule, append_pending_rule, delete_rule, idempotent_rule,
}
use veri_doc.Jobs.Invariant.Change.{true_not_false}
use veri_doc.Jobs.System.Lifecycle.{Move, Moved, keep, create, discard, bind_Moved}

module _ {Store : Type 0} (q : JobQueue Store) where
  register_move :
      (q' : JobQueue Store)
      → q'.jobs ≡ q.jobs
      → (fresh : Fresh) (r : JobRequest) (publish : Bool) → Dict.get q.jobs fresh.job_id ≡ none
      → (j : String)
      → Move (Dict.get q.jobs j) (Dict.get (register (new_job fresh r) publish q').jobs j)
  unfolding register
  register_move q' same fresh r publish new j = elim (Bool-cases (fresh.job_id == j)) [
    | inl hit ↦
        rw
          (
            get-put q'.jobs fresh.job_id j (new_job fresh r),
            hit,
            ← (eq_iff fresh.job_id j).0 hit,
            new,
          )
          (create refl refl)
    | inr miss ↦ rw (get-put q'.jobs fresh.job_id j (new_job fresh r), miss, same) keep
  ]

  forget_move :
      (q' : JobQueue Store)
      → q'.jobs ≡ q.jobs
      → (id : String) (job : JobRecord) → Dict.get q.jobs id ≡ some job
      → is_queued job.status ≡ true
      → (j : String) → Move (Dict.get q.jobs j) (Dict.get (forget_job job id q').jobs j)
  unfolding forget_job
  forget_move q' same id job found waits j = elim (Bool-cases (id == j)) [
    | inl hit ↦
        rw (get-remove q'.jobs id j, hit, ← (eq_iff id j).0 hit, found) (discard (ground arith))
    | inr miss ↦ rw (get-remove q'.jobs id j, miss, same) keep
  ]

module _ (P : Persistence) (q : JobQueue P.Store) where
  finish_publish-Moved :
      (job : JobRecord) (id : String) (should : Bool) (current : Option ℤ)
      (related : Option P.Related)
      → Moved q (finish_publish P job id should current related q)
  unfolding finish_publish mark_published push_pending
  finish_publish-Moved job id should current related =
      allocate_if_rule (Moved q) should current _ q
        (λ _.
          persist_rule P (Moved q) job _ related _ _ (λ e st j. keep)
            λ st. modify_rule (Moved q) _ _ _ (
              when_rule (Moved q) should _ _ _
                (λ _. append_pending_rule (Moved q) id _ _ _ (end_rule (Moved q) _ _ (λ j. keep)))
                (λ _. end_rule (Moved q) _ _ (λ j. keep))))
        (λ skip.
          persist_rule P (Moved q) job _ related _ q (λ e st j. keep)
            λ st. modify_rule (Moved q) _ _ _ (
              when_rule (Moved q) should _ _ _ (λ y. absurd (true_not_false y skip))
                (λ _. end_rule (Moved q) _ _ (λ j. keep))))

  pub publish_job-Moved :
      (id : String) (enqueue : Bool) (related : Option P.Related)
      → Moved q (publish_job P id enqueue related q)
  unfolding publish_job
  publish_job-Moved id enqueue related =
      find_job_rule (Moved q) id _ q (λ j. keep)
        λ job found. gets_rule (Moved q) _ _ q (
          gets_rule (Moved q) _ _ q (
            gets_rule (Moved q) _ _ q (
              choose_rule (Moved q) _ _ _ q
                (λ _.
                  choose_rule (Moved q) _ _ _ q (λ _. raise_rule (Moved q) _ q (λ j. keep))
                    (λ _. end_rule (Moved q) _ q (λ j. keep)))
                (λ _. finish_publish-Moved job id _ _ related))))

  pub enqueue_job-Moved : (id : String) → Moved q (enqueue_job P id q)
  unfolding enqueue_job
  enqueue_job-Moved id =
      find_job_rule (Moved q) id _ q (λ j. keep)
        λ job found.
          raise_if_rule (Moved q) _ _ _ q (λ _ j. keep)
            λ waits.
              gets_rule (Moved q) _ _ q
                (gets_rule (Moved q) _ _ q (finish_publish-Moved job id _ _ none))

  discard_found-Moved :
      (id : String) (found : Option JobRecord)
      → Dict.get q.jobs id ≡ found
      → Moved q (discard_found P id found q)
  unfolding discard_found modify
  discard_found-Moved id none lost = end_rule (Moved q) _ q (λ j. keep)
  discard_found-Moved id (some job) found =
      raise_if_rule (Moved q) _ _ _ q (λ _ j. keep)
        λ waits.
          delete_rule P (Moved q) id _ q (λ e st j. keep)
            λ st. forget_move q (record q { store = st }) refl id job found (ground arith)

  pub discard_queued_job-Moved : (id : String) → Moved q (discard_queued_job P id q)
  unfolding discard_queued_job
  discard_queued_job-Moved id = discard_found-Moved id (Dict.get q.jobs id) refl

  create_job_locked-Moved :
      (fresh : Fresh) (r : JobRequest) (enqueue publish : Bool)
      → Dict.get q.jobs fresh.job_id ≡ none
      → Moved q (create_job_locked P fresh r enqueue publish q)
  unfolding create_job_locked push_pending
  create_job_locked-Moved fresh r enqueue publish new = gets_rule (Moved q) _ _ q (
      raise_if_rule (Moved q) _ _ _ q (λ _ j. keep)
        λ free.
          allocate_if_rule (Moved q) (enqueue && publish) none _ q
            (λ both.
              when_rule (Moved q) publish _ _ _
                (λ _.
                  persist_rule P (Moved q) _ _ none _ _ (λ e st j. keep)
                    λ st. modify_rule (Moved q) _ _ _ (
                      when_rule (Moved q) (enqueue && publish) _ _ _
                        (λ _.
                          append_pending_rule (Moved q) fresh.job_id _ _ _
                            (end_rule (Moved q) _ _ (register_move q _ refl fresh r publish new)))
                        (λ _. end_rule (Moved q) _ _ (register_move q _ refl fresh r publish new))))
                (λ n. absurd (true_not_false {b = publish} (ground arith) n)))
            (λ skip.
              when_rule (Moved q) publish _ _ q
                (λ _.
                  persist_rule P (Moved q) _ _ none _ q (λ e st j. keep)
                    λ st. modify_rule (Moved q) _ _ _ (
                      when_rule (Moved q) (enqueue && publish) _ _ _
                        (λ y. absurd (true_not_false y skip))
                        (λ _. end_rule (Moved q) _ _ (register_move q _ refl fresh r publish new))))
                (λ _. modify_rule (Moved q) _ _ _ (
                  when_rule (Moved q) (enqueue && publish) _ _ _
                    (λ y. absurd (true_not_false y skip))
                    (λ _. end_rule (Moved q) _ _ (register_move q q refl fresh r publish new))))))

  make_job-Moved :
      (fresh : Fresh) (r : JobRequest) (template : Option (Result (Option Fields)))
      (enqueue publish : Bool)
      → Dict.get q.jobs fresh.job_id ≡ none
      → Moved q (make_job P fresh r template enqueue publish q)
  unfolding make_job
  make_job-Moved fresh r none enqueue publish new =
      create_job_locked-Moved fresh r enqueue publish new
  make_job-Moved fresh r (some made) enqueue publish new =
      lift_rule (Moved q) made _ q (λ e _ j. keep)
        λ t _. create_job_locked-Moved fresh (record r { template = t }) enqueue publish new

module _ (sha256 : List ℕ → String) (P : Persistence) (q : JobQueue P.Store) (fresh : Fresh)
    (new : Dict.get q.jobs fresh.job_id ≡ none) where
  pub create_job-Moved :
      (r : JobRequest) (enqueue : Bool) → Moved q (create_job sha256 P fresh r enqueue q)
  unfolding create_job
  create_job-Moved r enqueue =
      lift_rule (Moved q) (normalize_job_request r) _ q (λ e _ j. keep)
        λ r' _.
          idempotent_rule sha256 (Moved q) false true r' _ q (λ e j. keep)
            (λ id job bound shown found same. end_rule (Moved q) _ q (λ j. keep))
            (λ unbound. create_job_locked-Moved P q fresh r' enqueue true new)

  pub get_or_create_job-Moved :
      (r : JobRequest) (template : Option (Result (Option Fields)))
      (enqueue publish unpublished compare : Bool)
      → Moved q (get_or_create_job sha256 P fresh r template enqueue publish unpublished compare q)
  unfolding get_or_create_job
  get_or_create_job-Moved r template enqueue publish unpublished compare =
      lift_rule (Moved q) (normalize_job_request r) _ q (λ e _ j. keep)
        λ r' _.
          idempotent_rule sha256 (Moved q) unpublished compare r' _ q (λ e j. keep)
            (λ id job bound shown found same. end_rule (Moved q) _ q (λ j. keep))
            (λ unbound.
              bind_Moved q (make_job P fresh r' template enqueue publish) _
                (make_job-Moved P q fresh r' template enqueue publish new)
                λ job. (λ q' m. end_rule (Moved q) _ q' m))
