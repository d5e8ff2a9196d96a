-- ===== src/Jobs/Invariant/Creation.antt =====
-- Every method of `JobQueue` (services/api/job_queue.py) that creates, publishes or discards jobs
-- keeps the invariant, whether it returns or raises.
use veri_doc.Prelude.{
  ℕ, String, ◌≡◌, refl, Bool, true, false, ◌&&◌, List, Option, none, some, arith, eq_iff, ◌==◌,
}
use veri_doc.Prelude.Int.{ℤ, pos, ◌+ℤ◌, ◌<ℤ◌, int_laws}
use veri_doc.Prelude.Dict
use veri_doc.Prelude.Dict.{get-put}
use veri_doc.Prelude.Lists.{contains, contains-discard}
use veri_doc.Py.Value.{Fields}
use veri_doc.Jobs.Record.{JobRecord, Result, queued}
use veri_doc.Jobs.Request.{JobRequest, normalize_job_request}
use veri_doc.Jobs.Exec.{
  modify, raise_if_rule, gets_rule, choose_rule, end_rule, raise_rule, modify_rule, when_rule,
  lift_rule,
}
use veri_doc.Jobs.State.{
  Persistence, JobQueue, has_active_high_quality_job, register, mark_published, push_pending,
}
use veri_doc.Jobs.Queue.{
  Fresh, new_job, create_job_locked, finish_publish, publish_job, enqueue_job, discard_found,
  discard_queued_job, make_job, create_job, get_or_create_job,
}
use veri_doc.Jobs.Rules.{
  find_job_rule, allocate_if_rule, persist_rule, append_pending_rule, delete_rule, idempotent_rule,
}
use veri_doc.Jobs.Invariant.{Inv, status_of}
use veri_doc.Jobs.Invariant.Order.{AllBefore}
use veri_doc.Jobs.Invariant.Tables.{
  Inv-set_store, Inv-set_next, Inv-register, Inv-mark_published, Inv-push_pending,
}
use veri_doc.Jobs.Invariant.Removal.{Inv-forget_job}
use veri_doc.Jobs.Invariant.Change.{Keeps, bind_Keeps, true_not_false, no_active-not_active}

-- A queued job is published and goes to the end of the deque.
Inv-publish_pending :
    {Store : Type 0} (q : JobQueue Store) (h : Inv q) (id : String) (s : ℤ)
    → status_of (Dict.get q.jobs id) ≡ some queued
    → contains q.pending_job_ids id ≡ false
    → AllBefore q.pending_sequences s q.pending_job_ids
    → s <ℤ q.next_pending_sequence
    → Inv (push_pending id s (mark_published id q))
unfolding mark_published
Inv-publish_pending q h id s waits idle above below =
    Inv-push_pending (mark_published id q) (Inv-mark_published q h id) id s waits idle
      (ground (arith, contains-discard q.unpublished_job_ids id id, eq_iff id id)) above below

module _ (P : Persistence) (q : JobQueue P.Store) (h : Inv q) where
  finish_publish-Inv :
      (job : JobRecord) (id : String) (should : Bool) (current : Option ℤ)
      (related : Option P.Related)
      → (should ≡ true → status_of (Dict.get q.jobs id) ≡ some queued)
      → (should ≡ true → contains q.pending_job_ids id ≡ false)
      → Keeps (finish_publish P job id should current related q)
  unfolding finish_publish
  finish_publish-Inv job id should current related waits idle =
      allocate_if_rule Keeps should current _ q
        (λ yes_.
          let next = q.next_pending_sequence +ℤ pos 1 in
          let q' = record q { next_pending_sequence = next } in
          let h' = Inv-set_next q h next (omega int_laws) in
          persist_rule P Keeps job _ related _ q' (λ e st. Inv-set_store q' h' st)
            λ st. modify_rule Keeps _ _ _ (
              when_rule Keeps should _ _ _
                (λ _. append_pending_rule Keeps id q.next_pending_sequence _ _ (
                  end_rule Keeps _ _ (
                    Inv-publish_pending (record q' { store = st }) (Inv-set_store q' h' st) id
                      q.next_pending_sequence (waits yes_) (idle yes_) h.before_next
                      (omega int_laws))))
                (λ n. absurd (true_not_false yes_ n))))
        (λ skip.
          persist_rule P Keeps job _ related _ q (λ e st. Inv-set_store q h st)
            λ st. modify_rule Keeps _ _ _ (
              when_rule Keeps should _ _ _ (λ y. absurd (true_not_false y skip))
                (λ _.
                  end_rule Keeps _ _
                    (Inv-mark_published (record q { store = st }) (Inv-set_store q h st) id))))

  pub publish_job-Inv :
      (id : String) (enqueue : Bool) (related : Option P.Related)
      → Inv (publish_job P id enqueue related q).1
  unfolding publish_job
  publish_job-Inv id enqueue related = find_job_rule Keeps id _ q h λ job found.
      gets_rule Keeps _ _ q (
        gets_rule Keeps _ _ q (
          gets_rule Keeps _ _ q (
            choose_rule Keeps _ _ _ q
              (λ _.
                choose_rule Keeps _ _ _ q (λ _. raise_rule Keeps _ q h) (λ _. end_rule Keeps _ q h))
              (λ waits.
                finish_publish-Inv job id _ _ related (λ s. ground arith) (λ s. ground arith)))))

  pub enqueue_job-Inv : (id : String) → Inv (enqueue_job P id q).1
  unfolding enqueue_job
  enqueue_job-Inv id = find_job_rule Keeps id _ q h λ job found.
      raise_if_rule Keeps _ _ _ q (λ _. h)
        λ waits. gets_rule Keeps _ _ q (
          gets_rule Keeps _ _ q
            (finish_publish-Inv job id _ _ none (λ s. ground arith) (λ s. ground arith)))

  discard_found-Inv :
      (id : String) (found : Option JobRecord)
      → Dict.get q.jobs id ≡ found
      → Keeps (discard_found P id found q)
  unfolding discard_found modify
  discard_found-Inv id none lost = end_rule Keeps _ q h
  discard_found-Inv id (some job) found =
      raise_if_rule Keeps _ _ _ q (λ _. h)
        λ waits.
          delete_rule P Keeps id _ q (λ e st. Inv-set_store q h st)
            λ st. Inv-forget_job (record q { store = st }) (Inv-set_store q h st) id job found

  pub discard_queued_job-Inv : (id : String) → Inv (discard_queued_job P id q).1
  unfolding discard_queued_job
  discard_queued_job-Inv id = discard_found-Inv id (Dict.get q.jobs id) refl

module _ (P : Persistence) (q : JobQueue P.Store) (h : Inv q) (fresh : Fresh)
    (new : Dict.get q.jobs fresh.job_id ≡ none) where
  -- What `_create_job_locked` registers keeps the invariant, after the guard.
  registered-Inv :
      (q' : JobQueue P.Store)
      → Inv q'
      → q'.jobs ≡ q.jobs
      → q'.idempotency_index ≡ q.idempotency_index
      → (r : JobRequest) (publish : Bool) → Dict.get q.idempotency_index r.idempotency_key ≡ none
      → (r.mode == "high_quality" && has_active_high_quality_job q) ≡ false
      → Inv (register (new_job fresh r) publish q')
  registered-Inv q' h' same_jobs same_index r publish unbound free =
      Inv-register q' h' (new_job fresh r) publish refl (rw same_jobs new) (rw same_index unbound)
        λ i b active e b_active.
          absurd (
            true_not_false b_active
              (no_active-not_active q i b (ground arith) (rw (← same_jobs) e)))

  -- A published new job goes to the end of the deque.
  Inv-push_registered :
      (q' : JobQueue P.Store)
      → Inv q'
      → Dict.get q'.jobs fresh.job_id ≡ none
      → (r : JobRequest) (s : ℤ) → Inv (register (new_job fresh r) true q')
      → AllBefore q'.pending_sequences s q'.pending_job_ids
      → s <ℤ q'.next_pending_sequence
      → Inv (push_pending fresh.job_id s (register (new_job fresh r) true q'))
  unfolding register
  Inv-push_registered q' h' unknown r s registered above below =
      Inv-push_pending (register (new_job fresh r) true q') registered fresh.job_id s
        (ground (
          arith,
          get-put q'.jobs fresh.job_id fresh.job_id (new_job fresh r),
          eq_iff fresh.job_id fresh.job_id,
        ))
        (ground (arith, h'.pending_queued fresh.job_id))
        (ground (arith, h'.unpublished_queued fresh.job_id)) above below

  pub create_job_locked-Inv :
      (r : JobRequest) (enqueue publish : Bool)
      → Dict.get q.idempotency_index r.idempotency_key ≡ none
      → Keeps (create_job_locked P fresh r enqueue publish q)
  unfolding create_job_locked
  create_job_locked-Inv r enqueue publish unbound = gets_rule Keeps _ _ q (
      raise_if_rule Keeps _ _ _ q (λ _. h)
        λ free.
          allocate_if_rule Keeps (enqueue && publish) none _ q
            (λ both.
              let next = q.next_pending_sequence +ℤ pos 1 in
              let q' = record q { next_pending_sequence = next } in
              let h' = Inv-set_next q h next (omega int_laws) in
              let published : publish ≡ true = ground arith in
              when_rule Keeps publish _ _ q'
                (λ _.
                  persist_rule P Keeps _ _ none _ q' (λ e st. Inv-set_store q' h' st)
                    λ st. modify_rule Keeps _ _ _ (
                      when_rule Keeps (enqueue && publish) _ _ _
                        (λ _. append_pending_rule Keeps fresh.job_id q.next_pending_sequence _ _ (
                          end_rule Keeps _ _ (
                            rw published (
                              Inv-push_registered (record q' { store = st })
                                (Inv-set_store q' h' st) new r q.next_pending_sequence
                                (registered-Inv (record q' { store = st }) (Inv-set_store q' h' st)
                                  refl refl r true unbound free)
                                h.before_next (omega int_laws)))))
                        (λ n. absurd (true_not_false both n))))
                (λ n. absurd (true_not_false published n)))
            (λ skip.
              when_rule Keeps publish _ _ q
                (λ _.
                  persist_rule P Keeps _ _ none _ q (λ e st. Inv-set_store q h st)
                    λ st. modify_rule Keeps _ _ _ (
                      when_rule Keeps (enqueue && publish) _ _ _
                        (λ y. absurd (true_not_false y skip))
                        (λ _. end_rule Keeps _ _ (
                          registered-Inv (record q { store = st }) (Inv-set_store q h st) refl refl
                            r publish unbound free))))
                (λ _. modify_rule Keeps _ _ _ (
                  when_rule Keeps (enqueue && publish) _ _ _ (λ y. absurd (true_not_false y skip))
                    (λ _.
                      end_rule Keeps _ _ (registered-Inv q h refl refl r publish unbound free))))))

module _ (sha256 : List ℕ → String) (P : Persistence) (q : JobQueue P.Store) (h : Inv q)
    (fresh : Fresh) (new : Dict.get q.jobs fresh.job_id ≡ none) where
  pub create_job-Inv :
      (r : JobRequest) (enqueue : Bool) → Inv (create_job sha256 P fresh r enqueue q).1
  unfolding create_job
  create_job-Inv r enqueue =
      lift_rule Keeps (normalize_job_request r) _ q (λ e _. h)
        λ r' _.
          idempotent_rule sha256 Keeps false true r' _ q (λ e. h)
            (λ id job bound shown found same. end_rule Keeps _ q h)
            (λ unbound. create_job_locked-Inv P q h fresh new r' enqueue true unbound)

  make_job-Inv :
      (r : JobRequest) (template : Option (Result (Option Fields))) (enqueue publish : Bool)
      → Dict.get q.idempotency_index r.idempotency_key ≡ none
      → Keeps (make_job P fresh r template enqueue publish q)
  unfolding make_job
  make_job-Inv r none enqueue publish unbound =
      create_job_locked-Inv P q h fresh new r enqueue publish unbound
  make_job-Inv r (some made) enqueue publish unbound =
      lift_rule Keeps made _ q (λ e _. h)
        λ t _.
          create_job_locked-Inv P q h fresh new (record r { template = t }) enqueue publish unbound

  pub get_or_create_job-Inv :
      (r : JobRequest) (template : Option (Result (Option Fields)))
      (enqueue publish unpublished compare : Bool)
      → Inv (get_or_create_job sha256 P fresh r template enqueue publish unpublished compare q).1
  unfolding get_or_create_job
  get_or_create_job-Inv r template enqueue publish unpublished compare =
      lift_rule Keeps (normalize_job_request r) _ q (λ e _. h)
        λ r' _.
          idempotent_rule sha256 Keeps unpublished compare r' _ q (λ e. h)
            (λ id job bound shown found same. end_rule Keeps _ q h)
            (λ unbound.
              bind_Keeps (make_job P fresh r' template enqueue publish) _ q
                (make_job-Inv r' template enqueue publish unbound)
                λ job q' h'. end_rule Keeps _ q' h')
