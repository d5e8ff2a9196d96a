-- ===== src/Jobs/Durable/Restart/Recovery.antt =====
-- What a restart of a durable `JobQueue` (services/api/job_queue.py) makes of the jobs that the queue
-- before it had, when the database takes every write and the artifact files are there.
use veri_doc.Prelude.{
  ℕ, String, ◌≡◌, refl, true, false, ◌||◌, List, [], ◌++◌, none, some, arith, ◌∙◌,
}
use veri_doc.Prelude.Int.{ℤ, pos, ◌-ℤ◌}
use veri_doc.Prelude.Dict
use veri_doc.Prelude.Dict.{Dict, get-empty}
use veri_doc.Prelude.Lists.{length, contains}
use veri_doc.Jobs.Record.{JobRecord, is_running, ok}
use veri_doc.Jobs.Exec.{modify, ◌>>=◌}
use veri_doc.Jobs.State.{JobQueue}
use veri_doc.Jobs.System.{new_queue}
use veri_doc.Jobs.Invariant.{Inv}
use veri_doc.Jobs.Invariant.Change.{not_unpublished}
use veri_doc.Jobs.Durable.{Row, Database}
use veri_doc.Jobs.Durable.Restart.Reading.{Reading}
use veri_doc.Jobs.Durable.Restart.{
  Loaded, Waiting, Scan, empty_scan, scan_rows, least, sorted, line_up, next_after, set_next,
  restore_jobs, restart, recovered,
}
use veri_doc.Jobs.Durable.Restart.Loop.{
  AllKnown, looped, rejoin_all, requeue_running-run, interrupts, put_all, put_all-others,
  put_all-IsRecovered,
}
use veri_doc.Jobs.Durable.Restart.Load.{
  Keyed, OwnsJobs, waits, job_of, is_interrupted, is_waiting, append-waits, rejoin_all-waits,
  scan_rows-jobs, scan_rows-interrupts, scan_rows-waits, scan_rows-AllKnown,
}
use veri_doc.Jobs.Durable.Restart.Line.{line_up-others, line_up-contains, sorted-waits}

-- The parts of the restart, as its definition composes them.
abbrev pub scan_of : Dict Loaded → Scan
scan_of rows = scan_rows 0 rows empty_scan

abbrev pub first_of : Dict Loaded → ℤ
first_of rows = least (scan_of rows).pending -ℤ pos (length (scan_of rows).running)

abbrev pub line_of : Dict Loaded → List Waiting
line_of rows = (scan_of rows).pending ++ rejoin_all (first_of rows) 0 (scan_of rows).running

abbrev pub requeued : (ℕ → String) → ℕ → Dict Loaded → Dict Row → JobQueue Database
requeued clock max_attempts rows base =
    let s = scan_of rows in
    let start = new_queue max_attempts (record { rows = base; faults = [] }) in
    looped clock (first_of rows) 0 s.running
      (record start { jobs = s.jobs; idempotency_index = s.index }) base

abbrev pub restored : (ℕ → String) → ℕ → Dict Loaded → Dict Row → JobQueue Database
restored clock max_attempts rows base =
    let lined = line_up (sorted (line_of rows)) (requeued clock max_attempts rows base) in
    set_next (next_after (line_of rows) lined.next_pending_sequence) lined

-- A database with no fault to come.
abbrev pub at_rest : Dict Row → Database
at_rest base = record { rows = base; faults = [] }

-- The database that a queue leaves behind.
abbrev pub after_crash : JobQueue Database → Database
after_crash q = at_rest q.store.rows

module _ (q : JobQueue Database) (h : Inv q) {base : Dict Row} {rows : Dict Loaded}
    (g : Reading q base rows) (clock : ℕ → String) (max_attempts : ℕ) where
  pub rows-Keyed : Keyed rows
  rows-Keyed id row found = h.keyed id row.0 (g.known id row found).0

  rows-OwnsJobs : OwnsJobs q.idempotency_index rows
  rows-OwnsJobs id row found = h.indexed id row.0 (g.known id row found).0

  running-AllKnown : AllKnown q.jobs q.idempotency_index (scan_of rows).running
  running-AllKnown =
      scan_rows-AllKnown q.jobs q.idempotency_index 0 rows empty_scan g.distinct rows-Keyed
        rows-OwnsJobs (λ id row found. (g.known id row found).0) tt

  pub restart-run :
      restart clock (ok tt) max_attempts (at_rest base)
      ≡ (ok tt, restored clock max_attempts rows base)
  unfolding restart restore_jobs ◌>>=◌ modify
  restart-run =
      let s = scan_of rows in
      rw
        (
          g.loads,
          requeue_running-run clock (first_of rows) q.idempotency_index 0 s.running s.pending q.jobs
              (record (new_queue max_attempts (at_rest base)) {
                jobs = s.jobs;
                idempotency_index = s.index;
              })
              base running-AllKnown g.base_distinct g.owns,
        )
        refl

  abbrev pub again : JobQueue Database
  again = restored clock max_attempts rows base

  jobs_again :
      (id : String)
      → Dict.get again.jobs id
        ≡ Dict.get (put_all clock 0 (scan_of rows).running (scan_of rows).jobs) id
  jobs_again id =
      let others = line_up-others (sorted (line_of rows)) (requeued clock max_attempts rows base) in
      rw others.0 refl

  scanned : (id : String) → Dict.get (scan_of rows).jobs id ≡ job_of (Dict.get rows id) none
  scanned id =
      scan_rows-jobs 0 rows empty_scan id g.distinct rows-Keyed
      ∙ rw (get-empty {V = JobRecord} id) refl

  pub interrupted :
      (id : String) → interrupts (scan_of rows).running id ≡ is_interrupted (Dict.get rows id)
  unfolding interrupts
  interrupted id = scan_rows-interrupts 0 rows empty_scan id g.distinct rows-Keyed

  -- A published job that was not running is the same.
  pub restored-same :
      (id : String) (job : JobRecord)
      → Dict.get q.jobs id ≡ some job
      → contains q.unpublished_job_ids id ≡ false
      → is_running job.status ≡ false
      → Dict.get again.jobs id ≡ some job
  restored-same id job found public idle =
      let (row, there, is_row) = g.stored id job found public in
      jobs_again id
      ∙ put_all-others clock 0 (scan_of rows).running (scan_of rows).jobs id
          (ground (arith, interrupted id, is_row.0))
      ∙ ground (arith, scanned id, is_row.0)

  pub restored-IsRecovered :
      (id : String) (job : JobRecord)
      → Dict.get q.jobs id ≡ some job
      → is_running job.status ≡ true
      → (new : JobRecord) × (Dict.get again.jobs id ≡ some new)
        × (new ≡ recovered job new.updated_at)
  restored-IsRecovered id job found runs =
      let public = not_unpublished q h id job found (ground arith) in
      let (row, there, is_row) = g.stored id job found public in
      let (old, new, was, is, rec) =
        put_all-IsRecovered clock q.jobs q.idempotency_index 0 (scan_of rows).running
          (scan_of rows).jobs id running-AllKnown (ground (arith, interrupted id, is_row.0)) in
      let e : old ≡ job = ground arith in (new, jobs_again id ∙ is, rw (← e) rec.1)

  pub restored-none : (id : String) → Dict.get rows id ≡ none → Dict.get again.jobs id ≡ none
  restored-none id gone =
      jobs_again id
      ∙ put_all-others clock 0 (scan_of rows).running (scan_of rows).jobs id
          (ground (arith, interrupted id))
      ∙ ground (arith, scanned id)

  pub line_waits :
      (id : String)
      → waits (sorted (line_of rows)) id
        ≡ (is_waiting (Dict.get rows id) || is_interrupted (Dict.get rows id))
  unfolding waits
  line_waits id =
      sorted-waits (line_of rows) id
      ∙ append-waits (scan_of rows).pending (rejoin_all (first_of rows) 0 (scan_of rows).running) id
      ∙ rw
          (
            rejoin_all-waits (first_of rows) 0 (scan_of rows).running id,
            scan_rows-waits 0 rows empty_scan id g.distinct rows-Keyed,
            interrupted id,
          )
          refl

  pub waiting_again :
      (id : String)
      → contains again.pending_job_ids id
        ≡ (is_waiting (Dict.get rows id) || is_interrupted (Dict.get rows id))
  unfolding contains
  waiting_again id =
      line_up-contains (sorted (line_of rows)) (requeued clock max_attempts rows base) id
      ∙ line_waits id
