-- ===== src/Jobs/Invariant/Tables.antt =====
-- Each write to the tables of the queue keeps the invariant, under the conditions that the methods
-- of services/api/job_queue.py establish for it.
use veri_doc.Prelude.{String, ◌≡◌, Bool, true, false, [], ◌∷◌, none, some, arith, eq_iff}
use veri_doc.Prelude.Int.{ℤ, ◌<ℤ◌}
use veri_doc.Prelude.Dict
use veri_doc.Prelude.Dict.{Distinct-put, Distinct-remove, get-put, get-remove, is_some}
use veri_doc.Prelude.Lists.{
  contains, contains-discard, contains-append, contains-add_once, contains-remove_first_ne,
}
use veri_doc.Jobs.Record.{JobRecord, queued}
use veri_doc.Jobs.State.{JobQueue, put_job, register, mark_published, drop_pending, push_pending}
use veri_doc.Jobs.Invariant.{Inv, status_of, is_active}
use veri_doc.Jobs.Invariant.Order.{
  AllBefore, AllBefore-push, Ascending-push, Ascending-remove_first, AllBefore-weaken,
  AllBefore-remove_first, remove_first-not_contains,
}

module _ {Store : Type 0} (q : JobQueue Store) (h : Inv q) where
  pub Inv-set_store : (st : Store) → Inv (record q { store = st })
  Inv-set_store st = record {
    distinct = h.distinct;
    keyed = h.keyed;
    indexed = h.indexed;
    bound = h.bound;
    pending_queued = h.pending_queued;
    pending_public = h.pending_public;
    unpublished_queued = h.unpublished_queued;
    sequenced = h.sequenced;
    ascending = h.ascending;
    before_next = h.before_next;
    single_high_quality = h.single_high_quality;
  }

  pub Inv-set_next :
      (n : ℤ) → q.next_pending_sequence <ℤ n → Inv (record q { next_pending_sequence = n })
  Inv-set_next n l = record {
    distinct = h.distinct;
    keyed = h.keyed;
    indexed = h.indexed;
    bound = h.bound;
    pending_queued = h.pending_queued;
    pending_public = h.pending_public;
    unpublished_queued = h.unpublished_queued;
    sequenced = h.sequenced;
    ascending = h.ascending;
    before_next =
        AllBefore-weaken q.pending_sequences q.next_pending_sequence n q.pending_job_ids l
          h.before_next;
    single_high_quality = h.single_high_quality;
  }

  -- A job is replaced by one with its id and key; it may become active only if no other job is.
  pub Inv-put_job :
      (job old : JobRecord)
      → Dict.get q.jobs job.job_id ≡ some old
      → job.idempotency_key ≡ old.idempotency_key
      → (contains q.pending_job_ids job.job_id ≡ true → job.status ≡ queued)
      → (contains q.unpublished_job_ids job.job_id ≡ true → job.status ≡ queued)
      → ((i : String) (b : JobRecord)
          → is_active job ≡ true
          → Dict.get q.jobs i ≡ some b
          → is_active b ≡ true
          → i ≡ job.job_id)
      → Inv (put_job job q)
  unfolding put_job
  Inv-put_job job old found same waits hides alone = record {
    distinct = Distinct-put q.jobs job.job_id job h.distinct;
    keyed = λ id j e.
        ground (arith, get-put q.jobs job.job_id id job, eq_iff job.job_id id, h.keyed id j);
    indexed = λ id j e. ground (
      arith,
      get-put q.jobs job.job_id id job,
      eq_iff job.job_id id,
      h.indexed id j,
      h.indexed id old,
    );
    bound = λ k id e.
        ground (arith, get-put q.jobs job.job_id id job, eq_iff job.job_id id, h.bound k id);
    pending_queued = λ id c.
        ground (arith, get-put q.jobs job.job_id id job, eq_iff job.job_id id, h.pending_queued id);
    pending_public = h.pending_public;
    unpublished_queued = λ id c.
        ground
          (arith, get-put q.jobs job.job_id id job, eq_iff job.job_id id, h.unpublished_queued id);
    sequenced = h.sequenced;
    ascending = h.ascending;
    before_next = h.before_next;
    single_high_quality = λ i j a b ea eb aa ab. ground (
      arith,
      get-put q.jobs job.job_id i job,
      get-put q.jobs job.job_id j job,
      eq_iff job.job_id i,
      eq_iff job.job_id j,
      h.single_high_quality i j a b,
      alone i a,
      alone j b,
    );
  }

  -- Taking a job out of the deque.
  pub Inv-drop_pending : (id : String) → Inv (drop_pending id q)
  unfolding drop_pending
  Inv-drop_pending id =
      let gone = remove_first-not_contains q.pending_sequences q.pending_job_ids id h.ascending in
      record {
        distinct = h.distinct;
        keyed = h.keyed;
        indexed = h.indexed;
        bound = h.bound;
        pending_queued = λ j c. ground (
          arith,
          gone,
          eq_iff id j,
          contains-remove_first_ne q.pending_job_ids id j,
          h.pending_queued j,
        );
        pending_public = λ j c. ground (
          arith,
          gone,
          eq_iff id j,
          contains-remove_first_ne q.pending_job_ids id j,
          h.pending_public j,
        );
        unpublished_queued = h.unpublished_queued;
        sequenced = λ j. ground (
          arith,
          gone,
          eq_iff id j,
          contains-remove_first_ne q.pending_job_ids id j,
          get-remove q.pending_sequences id j,
          h.sequenced j,
        );
        ascending = Ascending-remove_first q.pending_sequences id q.pending_job_ids h.ascending;
        before_next =
            AllBefore-remove_first q.pending_sequences id q.next_pending_sequence q.pending_job_ids
              h.ascending h.before_next;
        single_high_quality = h.single_high_quality;
      }

  -- A queued, published job goes to the end of the deque, under a sequence above all others.
  pub Inv-push_pending :
      (id : String) (s : ℤ)
      → status_of (Dict.get q.jobs id) ≡ some queued
      → contains q.pending_job_ids id ≡ false
      → contains q.unpublished_job_ids id ≡ false
      → AllBefore q.pending_sequences s q.pending_job_ids
      → s <ℤ q.next_pending_sequence
      → Inv (push_pending id s q)
  unfolding push_pending contains
  Inv-push_pending id s waits absent public above below = record {
    distinct = h.distinct;
    keyed = h.keyed;
    indexed = h.indexed;
    bound = h.bound;
    pending_queued = λ j c.
        ground
          (arith, eq_iff id j, contains-append q.pending_job_ids (id ∷ []) j, h.pending_queued j);
    pending_public = λ j c.
        ground
          (arith, eq_iff id j, contains-append q.pending_job_ids (id ∷ []) j, h.pending_public j);
    unpublished_queued = h.unpublished_queued;
    sequenced = λ j. ground (
      arith,
      eq_iff id j,
      contains-append q.pending_job_ids (id ∷ []) j,
      get-put q.pending_sequences id j s,
      h.sequenced j,
    );
    ascending = Ascending-push q.pending_sequences id s q.pending_job_ids absent h.ascending above;
    before_next =
        AllBefore-push q.pending_sequences id s q.next_pending_sequence q.pending_job_ids absent
          h.before_next below;
    single_high_quality = h.single_high_quality;
  }

  -- A new queued job under a new id and a new key.
  pub Inv-register :
      (job : JobRecord) (publish : Bool)
      → job.status ≡ queued
      → Dict.get q.jobs job.job_id ≡ none
      → Dict.get q.idempotency_index job.idempotency_key ≡ none
      → ((i : String) (b : JobRecord)
          → is_active job ≡ true
          → Dict.get q.jobs i ≡ some b
          → is_active b ≡ true
          → i ≡ job.job_id)
      → Inv (register job publish q)
  unfolding register
  Inv-register job publish waits new unbound alone =
      let at = λ (id : String). get-put q.jobs job.job_id id job in
      let key_at = λ (k : String). get-put q.idempotency_index job.idempotency_key k job.job_id in
      record {
        distinct = Distinct-put q.jobs job.job_id job h.distinct;
        keyed = λ id j e. ground (arith, at id, eq_iff job.job_id id, h.keyed id j);
        indexed = λ id j e. ground (
          arith,
          at id,
          key_at j.idempotency_key,
          eq_iff job.job_id id,
          eq_iff job.idempotency_key j.idempotency_key,
          h.indexed id j,
        );
        bound = λ k id e. ground (
          arith,
          at id,
          key_at k,
          eq_iff job.job_id id,
          eq_iff job.idempotency_key k,
          h.bound k id,
        );
        pending_queued = λ id c. ground (arith, at id, eq_iff job.job_id id, h.pending_queued id);
        pending_public = λ id c. ground (
          arith,
          contains-add_once q.unpublished_job_ids job.job_id id,
          eq_iff job.job_id id,
          h.pending_queued id,
          h.pending_public id,
        );
        unpublished_queued = λ id c. ground (
          arith,
          at id,
          contains-add_once q.unpublished_job_ids job.job_id id,
          eq_iff job.job_id id,
          h.unpublished_queued id,
        );
        sequenced = h.sequenced;
        ascending = h.ascending;
        before_next = h.before_next;
        single_high_quality = λ i j a b ea eb aa ab. ground (
          arith,
          at i,
          at j,
          eq_iff job.job_id i,
          eq_iff job.job_id j,
          h.single_high_quality i j a b,
          alone i a,
          alone j b,
        );
      }

  pub Inv-mark_published : (id : String) → Inv (mark_published id q)
  unfolding mark_published
  Inv-mark_published id = record {
    distinct = h.distinct;
    keyed = h.keyed;
    indexed = h.indexed;
    bound = h.bound;
    pending_queued = h.pending_queued;
    pending_public = λ j c.
        ground
          (arith, contains-discard q.unpublished_job_ids id j, eq_iff id j, h.pending_public j);
    unpublished_queued = λ j c.
        ground
          (arith, contains-discard q.unpublished_job_ids id j, eq_iff id j, h.unpublished_queued j);
    sequenced = h.sequenced;
    ascending = h.ascending;
    before_next = h.before_next;
    single_high_quality = h.single_high_quality;
  }
