-- ===== src/Jobs/Invariant/Removal.antt =====
-- What the removal of a job does to the tables (services/api/job_queue.py).
use veri_doc.Prelude.{String, ◌≡◌, false, some, arith, eq_iff}
use veri_doc.Prelude.Dict
use veri_doc.Prelude.Dict.{Distinct-put, Distinct-remove, get-put, get-remove, is_some}
use veri_doc.Prelude.Lists.{contains, contains-discard}
use veri_doc.Jobs.Record.{JobRecord}
use veri_doc.Jobs.State.{JobQueue, mark_published, drop_pending, forget_job}
use veri_doc.Jobs.Invariant.{Inv}
use veri_doc.Jobs.Invariant.Order.{remove_first-not_contains}
use veri_doc.Jobs.Invariant.Tables.{Inv-drop_pending, Inv-mark_published}

module _ {Store : Type 0} (q : JobQueue Store) (h : Inv q) where
  -- A job that is neither pending nor unpublished is deleted with its key.
  Inv-remove_job :
      (id : String) (job : JobRecord)
      → Dict.get q.jobs id ≡ some job
      → contains q.pending_job_ids id ≡ false
      → contains q.unpublished_job_ids id ≡ false
      → Inv (record q {
        jobs = Dict.remove q.jobs id;
        idempotency_index = Dict.remove q.idempotency_index job.idempotency_key;
      })
  Inv-remove_job id job found idle public =
      let at = λ (i : String). get-remove q.jobs id i in
      let key_at = λ (k : String). get-remove q.idempotency_index job.idempotency_key k in
      record {
        distinct = Distinct-remove q.jobs id h.distinct;
        keyed = λ i j e. ground (arith, at i, h.keyed i j);
        indexed = λ i j e. ground (
          arith,
          at i,
          key_at j.idempotency_key,
          eq_iff id i,
          eq_iff job.idempotency_key j.idempotency_key,
          h.indexed i j,
          h.indexed id job,
        );
        bound = λ k i e.
            ground (arith, at i, key_at k, eq_iff id i, eq_iff job.idempotency_key k, h.bound k i);
        pending_queued = λ i c. ground (arith, at i, eq_iff id i, h.pending_queued i);
        pending_public = h.pending_public;
        unpublished_queued = λ i c. ground (arith, at i, eq_iff id i, h.unpublished_queued i);
        sequenced = h.sequenced;
        ascending = h.ascending;
        before_next = h.before_next;
        single_high_quality =
            λ i j a b ea eb aa ab. ground (arith, at i, at j, h.single_high_quality i j a b);
      }

module _ {Store : Type 0} (q : JobQueue Store) (h : Inv q) where
  pub not_pending-drop_pending :
      (id : String) → contains (drop_pending id q).pending_job_ids id ≡ false
  unfolding drop_pending
  not_pending-drop_pending id =
      remove_first-not_contains q.pending_sequences q.pending_job_ids id h.ascending

  not_hidden-mark_published :
      (id : String) → contains (mark_published id q).unpublished_job_ids id ≡ false
  unfolding mark_published
  not_hidden-mark_published id =
      ground (arith, contains-discard q.unpublished_job_ids id id, eq_iff id id)

  -- The deletions of `discard_queued_job`.
  pub Inv-forget_job :
      (id : String) (job : JobRecord) → Dict.get q.jobs id ≡ some job → Inv (forget_job job id q)
  unfolding forget_job drop_pending mark_published
  Inv-forget_job id job found =
      Inv-remove_job (drop_pending id (mark_published id q))
        (Inv-drop_pending (mark_published id q) (Inv-mark_published q h id) id) id job found
        (remove_first-not_contains q.pending_sequences q.pending_job_ids id h.ascending)
        (not_hidden-mark_published id)
