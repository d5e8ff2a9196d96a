-- ===== src/Jobs/Durable/Births.antt =====
-- Every call of a durable `JobQueue` (services/api/job_queue.py) that creates, publishes or discards
-- a job keeps the rows as the tables are. An unpublished job has no row.
use veri_doc.Prelude.{
  String, ◌≡◌, refl, Bool, true, false, ◌&&◌, Option, none, some, Option-cases, inl, inr, arith,
  eq_iff, ◌==◌, List, ℕ, if◌then◌else◌,
}
use veri_doc.Prelude.Int.{ℤ}
use veri_doc.Prelude.Dict
use veri_doc.Prelude.Dict.{Dict, get-put, get-remove}
use veri_doc.Prelude.Lists.{contains, contains-discard, contains-add_once}
use veri_doc.Py.Value.{Fields}
use veri_doc.Jobs.Record.{JobRecord, Error, Result}
use veri_doc.Jobs.Request.{JobRequest, normalize_job_request}
use veri_doc.Jobs.Exec.{
  raise_if_rule, gets_rule, choose_rule, end_rule, raise_rule, modify_rule, modify, when_rule,
  lift_rule,
}
use veri_doc.Jobs.Codec.Job.{encode_job}
use veri_doc.Jobs.State.{JobQueue, register, forget_job, mark_published, push_pending}
use veri_doc.Jobs.Queue.{
  Fresh, new_job, create_job_locked, finish_publish, publish_job, enqueue_job, discard_found,
  discard_queued_job, make_job, create_job, get_or_create_job,
}
use veri_doc.Jobs.Rules.{find_job_rule, allocate_if_rule, append_pending_rule, idempotent_rule}
use veri_doc.Jobs.Invariant.{Inv}
use veri_doc.Jobs.Invariant.Change.{true_not_false}
use veri_doc.Jobs.Durable.{Database, durable}
use veri_doc.Jobs.Durable.Matched.{Matched-saved, Matched-hidden}
use veri_doc.Jobs.Durable.Writes.{IsSound, save_rule, erase_rule}
use veri_doc.Jobs.Durable.Calls.{Faithful, Kept, bind_Kept, untouched, get-put_as}

module _ (q : JobQueue Database) (h : Inv q) (g : Faithful q) where
  raised :
      (e : Error) (db : Database)
      → db.rows ≡ q.store.rows
      → IsSound db
      → Faithful (record q { store = db })
  raised e db = untouched q q.next_pending_sequence db g.0

  -- The row of a job that is published with its place, or without one in the deque.
  finish_publish-Kept :
      (id : String) (job : JobRecord)
      → Dict.get q.jobs id ≡ some job
      → (should : Bool) (related : Option (Option Error))
      → Kept (finish_publish durable job id should (Dict.get q.pending_sequences id) related q)
  unfolding finish_publish mark_published push_pending
  finish_publish-Kept id job found should related =
      let own = h.keyed id job found in
      allocate_if_rule Kept should _ _ q
        (λ due.
          save_rule Kept job _ related _ _ g.1 (λ e db. untouched q _ db g.0)
            λ db rows clean. modify_rule Kept _ _ _ (
              when_rule Kept should _ _ _
                (λ _. append_pending_rule Kept id _ _ _ (
                  end_rule Kept _ _ (
                    Matched-saved q _ id g.0 job (some q.next_pending_sequence)
                        (some q.next_pending_sequence) (λ j. ground (arith, eq_iff id j))
                        (λ j. get-put q.pending_sequences id j _)
                        (λ j. contains-discard q.unpublished_job_ids id j)
                        (λ j. rw rows (get-put_as own q.store.rows _ j)) (λ _. refl),
                    clean,
                  )))
                (λ n. absurd (true_not_false due n))))
        (λ skip. save_rule Kept job _ related _ q g.1 raised λ db rows clean.
          modify_rule Kept _ _ _ (
            when_rule Kept should _ _ _ (λ y. absurd (true_not_false y skip))
              (λ _. end_rule Kept _ _ (
                Matched-saved q _ id g.0 job (Dict.get q.pending_sequences id)
                    (Dict.get q.pending_sequences id) (λ j. ground (arith, eq_iff id j))
                    (λ j. ground (arith, eq_iff id j))
                    (λ j. contains-discard q.unpublished_job_ids id j)
                    (λ j. rw rows (get-put_as own q.store.rows _ j)) (λ _. refl),
                clean,
              ))))

  pub publish_job-Kept :
      (id : String) (enqueue : Bool) (related : Option (Option Error))
      → Kept (publish_job durable id enqueue related q)
  unfolding publish_job
  publish_job-Kept id enqueue related = find_job_rule Kept id _ q g λ job found.
      gets_rule Kept _ _ q (
        gets_rule Kept _ _ q (
          gets_rule Kept _ _ q (
            choose_rule Kept _ _ _ q
              (λ _.
                choose_rule Kept _ _ _ q (λ _. raise_rule Kept _ q g) (λ _. end_rule Kept _ q g))
              (λ _. finish_publish-Kept id job found _ related))))

  pub enqueue_job-Kept : (id : String) → Kept (enqueue_job durable id q)
  unfolding enqueue_job
  enqueue_job-Kept id = find_job_rule Kept id _ q g λ job found.
      raise_if_rule Kept _ _ _ q (λ _. g)
        λ waits.
          gets_rule Kept _ _ q (gets_rule Kept _ _ q (finish_publish-Kept id job found _ none))

  discard_found-Kept :
      (id : String) (found : Option JobRecord)
      → Dict.get q.jobs id ≡ found
      → Kept (discard_found durable id found q)
  unfolding discard_found modify forget_job
  discard_found-Kept id none lost = end_rule Kept _ q g
  discard_found-Kept id (some job) found =
      raise_if_rule Kept _ _ _ q (λ _. g)
        λ waits. erase_rule Kept id _ q g.1 raised λ db rows clean. (
          Matched-hidden q _ id g.0 (λ j miss. rw (get-remove q.jobs id j, miss) refl)
              (λ j miss. rw (get-remove q.pending_sequences id j, miss) refl)
              (λ j miss. rw (contains-discard q.unpublished_job_ids id j, miss) refl)
              (λ j. rw rows (get-remove q.store.rows id j))
              (λ other there. ground (arith, get-remove q.jobs id id, eq_iff id id)),
          clean,
        )

  pub discard_queued_job-Kept : (id : String) → Kept (discard_queued_job durable id q)
  unfolding discard_queued_job
  discard_queued_job-Kept id = discard_found-Kept id (Dict.get q.jobs id) refl

  -- An id that no job has is neither waiting nor unpublished, and has no row.
  new_sequence : (id : String) → Dict.get q.jobs id ≡ none → Dict.get q.pending_sequences id ≡ none
  new_sequence id new = ground (arith, h.sequenced id, h.pending_queued id)

  new_public : (id : String) → Dict.get q.jobs id ≡ none → contains q.unpublished_job_ids id ≡ false
  new_public id new = ground (arith, h.unpublished_queued id)

  module _ (fresh : Fresh) (r : JobRequest) (new : Dict.get q.jobs fresh.job_id ≡ none) where
    -- A new job that is written with its row.
    born-Faithful :
        (s : Option ℤ) (q' : JobQueue Database)
        → q'.jobs ≡ Dict.put q.jobs fresh.job_id (new_job fresh r)
        → ((j : String)
            → Dict.get q'.pending_sequences j
              ≡ (if fresh.job_id == j then s else Dict.get q.pending_sequences j))
        → q'.unpublished_job_ids ≡ q.unpublished_job_ids
        → q'.store.rows ≡ Dict.put q.store.rows fresh.job_id (encode_job (new_job fresh r), s)
        → IsSound q'.store
        → Faithful q'
    born-Faithful s q' jobs seqs hides rows clean = (
      Matched-saved q q' fresh.job_id g.0 (new_job fresh r) s s
          (λ j. rw jobs (get-put q.jobs fresh.job_id j (new_job fresh r))) seqs
          (λ j. rw hides (ground (arith, eq_iff fresh.job_id j, new_public fresh.job_id new)))
          (λ j. rw rows (get-put q.store.rows fresh.job_id j (encode_job (new_job fresh r), s)))
          (λ _. refl),
      clean,
    )

    new_row : Dict.get q.store.rows fresh.job_id ≡ none
    new_row = elim (Option-cases (Dict.get q.store.rows fresh.job_id)) [
      | inl e ↦ e
      | inr (row, e) ↦ ground (arith, g.0.known fresh.job_id row)
    ]

    -- A new job that is not published yet is written without a row.
    hidden-Faithful : Faithful (register (new_job fresh r) false q)
    unfolding register
    hidden-Faithful = (
      Matched-hidden q _ fresh.job_id g.0
          (λ j miss. rw (get-put q.jobs fresh.job_id j (new_job fresh r), miss) refl)
          (λ j miss. refl)
          (λ j miss. rw (contains-add_once q.unpublished_job_ids fresh.job_id j, miss) refl)
          (λ j. ground (arith, eq_iff fresh.job_id j, new_row))
          (λ job found.
            rw
              (
                contains-add_once q.unpublished_job_ids fresh.job_id fresh.job_id,
                (eq_iff fresh.job_id fresh.job_id).1 refl,
              )
              refl),
      g.1,
    )

    create_job_locked-Kept :
        (enqueue publish : Bool) → Kept (create_job_locked durable fresh r enqueue publish q)
    unfolding create_job_locked push_pending register
    create_job_locked-Kept enqueue publish = gets_rule Kept _ _ q (
        raise_if_rule Kept _ _ _ q (λ _. g)
          λ free.
            allocate_if_rule Kept (enqueue && publish) none _ q
              (λ both.
                when_rule Kept publish _ _ _
                  (λ _.
                    save_rule Kept (new_job fresh r) _ none _ _ g.1 (λ e db. untouched q _ db g.0)
                      λ db rows clean. modify_rule Kept _ _ _ (
                        when_rule Kept (enqueue && publish) _ _ _
                          (λ _. append_pending_rule Kept fresh.job_id _ _ _ (
                            end_rule Kept _ _ (
                              born-Faithful (some q.next_pending_sequence) _ refl
                                (λ j. get-put q.pending_sequences fresh.job_id j _) (ground arith)
                                rows clean)))
                          (λ n. absurd (true_not_false both n))))
                  (λ n. absurd (true_not_false {b = publish} (ground arith) n)))
              (λ skip.
                when_rule Kept publish _ _ q
                  (λ shown.
                    save_rule Kept (new_job fresh r) none none _ q g.1 raised λ db rows clean.
                      modify_rule Kept _ _ _ (
                        when_rule Kept (enqueue && publish) _ _ _
                          (λ y. absurd (true_not_false y skip))
                          (λ _. end_rule Kept _ _ (
                            born-Faithful none _ refl
                              (λ j.
                                ground
                                  (arith, eq_iff fresh.job_id j, new_sequence fresh.job_id new))
                              (ground arith) rows clean))))
                  (λ unshown. modify_rule Kept _ _ _ (
                    when_rule Kept (enqueue && publish) _ _ _ (λ y. absurd (true_not_false y skip))
                      (λ _. end_rule Kept _ _ (rw unshown hidden-Faithful))))))

  make_job-Kept :
      (fresh : Fresh) (r : JobRequest) (template : Option (Result (Option Fields)))
      (enqueue publish : Bool)
      → Dict.get q.jobs fresh.job_id ≡ none
      → Kept (make_job durable fresh r template enqueue publish q)
  unfolding make_job
  make_job-Kept fresh r none enqueue publish new =
      create_job_locked-Kept fresh r new enqueue publish
  make_job-Kept fresh r (some made) enqueue publish new =
      lift_rule Kept made _ q (λ e _. g)
        λ t _. create_job_locked-Kept fresh (record r { template = t }) new enqueue publish

module _ (sha256 : List ℕ → String) (q : JobQueue Database) (h : Inv q) (g : Faithful q)
    (fresh : Fresh) (new : Dict.get q.jobs fresh.job_id ≡ none) where
  pub create_job-Kept :
      (r : JobRequest) (enqueue : Bool) → Kept (create_job sha256 durable fresh r enqueue q)
  unfolding create_job
  create_job-Kept r enqueue =
      lift_rule Kept (normalize_job_request r) _ q (λ e _. g)
        λ r' _.
          idempotent_rule sha256 Kept false true r' _ q (λ e. g)
            (λ id job bound shown found same. end_rule Kept _ q g)
            (λ unbound. create_job_locked-Kept q h g fresh r' new enqueue true)

  pub get_or_create_job-Kept :
      (r : JobRequest) (template : Option (Result (Option Fields)))
      (enqueue publish unpublished compare : Bool)
      → Kept
          (get_or_create_job sha256 durable fresh r template enqueue publish unpublished compare q)
  unfolding get_or_create_job
  get_or_create_job-Kept r template enqueue publish unpublished compare =
      lift_rule Kept (normalize_job_request r) _ q (λ e _. g)
        λ r' _.
          idempotent_rule sha256 Kept unpublished compare r' _ q (λ e. g)
            (λ id job bound shown found same. end_rule Kept _ q g)
            (λ unbound.
              bind_Kept (make_job durable fresh r' template enqueue publish) _ q
                (make_job-Kept q h g fresh r' template enqueue publish new)
                λ job q' g'. end_rule Kept _ q' g')
