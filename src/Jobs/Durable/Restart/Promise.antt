-- ===== src/Jobs/Durable/Restart/Promise.antt =====
-- What a restart of the job queue (services/api/job_queue.py) promises to those who put jobs into it.
use veri_doc.Jobs.Durable.Restart.Seen.{
  Readable, IsRead, loaded_of-job, load_rows-IsRead, seen, runs-reread, AllProper, preimage,
  Inv-seen,
}
use veri_doc.Prelude.{ℕ, String, ◌≡◌, refl, true, ◌||◌, some, ◌∙◌, sym, ap}
use veri_doc.Prelude.Int.{ℤ, ◌<ℤ◌}
use veri_doc.Prelude.Dict
use veri_doc.Prelude.Dict.{
  Dict, Distinct, map_values, get-map_values, Distinct-map_values, get-empty,
}
use veri_doc.Prelude.Lists.{contains}
use veri_doc.Jobs.Record.{ok, is_queued}
use veri_doc.Jobs.Codec.Job.{encode_job-key}
use veri_doc.Jobs.Codec.JobRoundTrip.{reread}
use veri_doc.Jobs.State.{JobQueue}
use veri_doc.Jobs.Invariant.{Inv}
use veri_doc.Jobs.Durable.{Database}
use veri_doc.Jobs.Durable.Calls.{Faithful}
use veri_doc.Jobs.Durable.Restart.{Loaded, restart}
use veri_doc.Jobs.Durable.Restart.Reading.{Reading}
use veri_doc.Jobs.Durable.Restart.Recovery.{after_crash}
use veri_doc.Jobs.Durable.Restart.Standing.{stands_before}
use veri_doc.Jobs.Durable.Restart.Carried.{runs, restored_pending, restored_order, restored_next}

module _ (q : JobQueue Database) (h : Inv q) (g : Faithful q) (proper : AllProper q) where
  rows-Readable : Readable q.jobs q.store.rows
  rows-Readable id row found =
      let ((job, there, is), shown) = g.0.known id row found in
      (job, there, is, proper id job there)

  loading : (rows : Dict Loaded) × IsRead q.jobs q.store.rows rows
  loading = load_rows-IsRead q.jobs q.store.rows g.1.1 rows-Readable

  reading : Reading (seen q) q.store.rows loading.0
  reading =
      let (loads, at, apart) = loading.1 in
      record {
        loads = loads;
        stored = λ id job found shown.
            let (j, there, e) = preimage q h id job found in
            let (row, in_base, is_row) = g.0.stored id j there shown in
            (
              (reread j, row.1),
              at id ∙ rw (in_base, there) refl,
              (e, λ waits. is_row.1 (ap (λ x. is_queued x.status) e ∙ waits)),
            );
        known = λ id row found.
            let (r, in_base, is_job) =
              loaded_of-job (Dict.get q.store.rows id) (Dict.get q.jobs id) row
                (sym (at id) ∙ found) in
            let (job, there, e) = is_job in
            (get-map_values reread q.jobs id ∙ rw there (ap some e), (g.0.known id r in_base).1);
        distinct = apart;
        base_distinct = g.1.1;
        owns = λ id row found.
            let ((job, there, is), shown) = g.0.known id row found in
            rw (is, encode_job-key job) (h.indexed id job there);
      }

  -- After such a restart a job stands in the deque exactly if it stood there before or was
  -- running.
  pub restart-pending :
      (clock : ℕ → String) (max_attempts : ℕ) (id : String)
      → contains (restart clock (ok tt) max_attempts (after_crash q)).1.pending_job_ids id
        ≡ (contains q.pending_job_ids id || runs (Dict.get q.jobs id))
  restart-pending clock max_attempts id =
      restored_pending (seen q) (Inv-seen q h) reading clock max_attempts id
      ∙ rw (get-map_values reread q.jobs id, runs-reread (Dict.get q.jobs id)) refl

  -- After such a restart every job that was waiting has the sequence that it had, and a waiting
  -- job that stood before another one in the deque stands before it again.
  pub restart-order :
      (clock : ℕ → String) (max_attempts : ℕ)
      → let r = (restart clock (ok tt) max_attempts (after_crash q)).1 in
        ((id : String)
          → contains q.pending_job_ids id ≡ true
          → Dict.get r.pending_sequences id ≡ Dict.get q.pending_sequences id)
        × ((i j : String)
            → stands_before q.pending_job_ids i j ≡ true
            → stands_before r.pending_job_ids i j ≡ true)
  restart-order clock max_attempts =
      restored_order (seen q) (Inv-seen q h) reading clock max_attempts

  -- After such a restart every sequence of a job in the deque is below the next sequence number.
  pub restart-next :
      (clock : ℕ → String) (max_attempts : ℕ)
      → let r = (restart clock (ok tt) max_attempts (after_crash q)).1 in
        (id : String) (s : ℤ)
        → Dict.get r.pending_sequences id ≡ some s
        → s <ℤ r.next_pending_sequence
  restart-next clock max_attempts = restored_next (seen q) (Inv-seen q h) reading clock max_attempts
