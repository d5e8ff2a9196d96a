-- ===== src/Jobs/Durable/Restart/Carried.antt =====
-- What a restart of the job queue (services/api/job_queue.py) makes of the tables, given what it reads
-- of the rows.
use veri_doc.Prelude.{
  ℕ, String, ◌≡◌, refl, Bool, true, false, ◌||◌, List, [], ◌∷◌, Option, none, some, Option-cases,
  arith, eq_iff, ◌==◌, ◌∙◌, sym, Bool-cases, inl, inr,
}
use veri_doc.Prelude.Int.{ℤ, ◌<ℤ◌}
use veri_doc.Prelude.Dict
use veri_doc.Prelude.Dict.{Dict}
use veri_doc.Prelude.Lists.{contains}
use veri_doc.Jobs.Record.{JobRecord, is_running, ok}
use veri_doc.Jobs.State.{JobQueue}
use veri_doc.Jobs.Invariant.{Inv}
use veri_doc.Jobs.Invariant.Order.{Ascending, AllAfter-contains, sequence_of}
use veri_doc.Jobs.Durable.{Row, Database}
use veri_doc.Jobs.Durable.Restart.{Loaded, empty_scan, recovered, restart, sorted}
use veri_doc.Jobs.Durable.Restart.Reading.{Reading}
use veri_doc.Jobs.Durable.Restart.Loop.{interrupts}
use veri_doc.Jobs.Durable.Restart.Load.{waits, is_interrupted, is_waiting}
use veri_doc.Jobs.Durable.Restart.Line.{
  IsAt, sorted-IsAt, append-IsAt, scan_rows-IsAt, rejoin_all-IsAt, line_up-sequence,
  sorted-IsOrdered,
}
use veri_doc.Jobs.Durable.Restart.Standing.{stands_before, line_up-stands_before}
use veri_doc.Jobs.Durable.Restart.Bounds.{line_up-next}
use veri_doc.Jobs.Durable.Restart.Recovery.{
  at_rest, restored-same, restored-IsRecovered, restored-none, waiting_again, restart-run, line_of,
  scan_of, first_of, requeued, restored, line_waits, interrupted, rows-Keyed,
}

-- What becomes of a job: an unpublished one is gone, a running one is queued, others are the same.
abbrev pub IsCarried : Bool → Option JobRecord → Option JobRecord → Type 0
IsCarried true old new = new ≡ none
IsCarried false none new = new ≡ none
IsCarried false (some job) new =
    (is_running job.status ≡ false → new ≡ some job)
    × (is_running job.status ≡ true
        → (job' : JobRecord) × (new ≡ some job') × (job' ≡ recovered job job'.updated_at))

abbrev pub runs : Option JobRecord → Bool
runs none = false
runs (some job) = is_running job.status

-- In the deque, standing before another job is having a lower sequence.
stands_before-lt :
    (seqs : Dict ℤ) (xs : List String) (i j : String)
    → Ascending seqs xs
    → stands_before xs i j ≡ true
    → (contains xs i ≡ true) × (contains xs j ≡ true) × (sequence_of seqs i <ℤ sequence_of seqs j)
unfolding stands_before contains
stands_before-lt seqs [] i j h before = ground arith
stands_before-lt seqs (x ∷ xs) i j h before = elim (Bool-cases (x == i)) [
  | inl hit ↦
      let there : contains xs j ≡ true = ground arith in
      let lt = AllAfter-contains seqs (sequence_of seqs x) xs j h.0 there in
      (ground arith, ground arith, rw (← (eq_iff x i).0 hit) lt)
  | inr miss ↦
      let r = stands_before-lt seqs xs i j h.1 (ground arith) in (ground arith, ground arith, r.2)
]

module _ (q : JobQueue Database) (h : Inv q) {base : Dict Row} {rows : Dict Loaded}
    (g : Reading q base rows) (clock : ℕ → String) (max_attempts : ℕ) where
  no_row-hidden : (id : String) → contains q.unpublished_job_ids id ≡ true → Dict.get rows id ≡ none
  no_row-hidden id hidden = elim (Option-cases (Dict.get rows id)) [
    | inl e ↦ e
    | inr (row, e) ↦ ground (arith, g.known id row)
  ]

  no_row-none : (id : String) → Dict.get q.jobs id ≡ none → Dict.get rows id ≡ none
  no_row-none id lost = elim (Option-cases (Dict.get rows id)) [
    | inl e ↦ e
    | inr (row, e) ↦ ground (arith, g.known id row)
  ]

  restored_job :
      (id : String) (hidden : Bool) (old : Option JobRecord)
      → contains q.unpublished_job_ids id ≡ hidden
      → Dict.get q.jobs id ≡ old
      → IsCarried hidden old
          (Dict.get (restart clock (ok tt) max_attempts (at_rest base)).1.jobs id)
  restored_job id true old hidden found =
      rw (restart-run q h g clock max_attempts)
        (restored-none q h g clock max_attempts id (no_row-hidden id hidden))
  restored_job id false none shown lost =
      rw (restart-run q h g clock max_attempts)
        (restored-none q h g clock max_attempts id (no_row-none id lost))
  restored_job id false (some job) shown found = rw (restart-run q h g clock max_attempts) (
    (λ idle. restored-same q h g clock max_attempts id job found shown idle),
    (λ busy. restored-IsRecovered q h g clock max_attempts id job found busy),
  )

  pub restored_jobs :
      let r = restart clock (ok tt) max_attempts (at_rest base) in
      (r.0 ≡ ok tt)
      × ((id : String)
          → IsCarried
              (contains q.unpublished_job_ids id)
              (Dict.get q.jobs id)
              (Dict.get r.1.jobs id))
  restored_jobs = (
    rw (restart-run q h g clock max_attempts) refl,
    λ id. restored_job id (contains q.unpublished_job_ids id) (Dict.get q.jobs id) refl refl,
  )

  row_waits :
      (id : String) (row : Loaded)
      → Dict.get rows id ≡ some row
      → is_waiting (some row) ≡ contains q.pending_job_ids id
  row_waits id row there =
      let (found, shown) = g.known id row there in
      let (row', same, is_row) = g.stored id row.0 found shown in
      ground (arith, h.sequenced id, h.pending_queued id, is_row.1)

  -- A job without a row is unpublished, so it neither waits nor runs.
  nothing_waits :
      (id : String)
      → Dict.get rows id ≡ none
      → (contains q.pending_job_ids id || runs (Dict.get q.jobs id)) ≡ false
  nothing_waits id gone = elim (Option-cases (Dict.get q.jobs id)) [
    | inl lost ↦ ground (arith, h.pending_queued id)
    | inr (job, found) ↦ elim (Bool-cases (contains q.unpublished_job_ids id)) [
      | inl hidden ↦ ground (arith, h.pending_public id, h.unpublished_queued id)
      | inr shown ↦ let (row, there, is_row) = g.stored id job found shown in ground arith
    ]
  ]

  rows_wait :
      (id : String)
      → (is_waiting (Dict.get rows id) || is_interrupted (Dict.get rows id))
        ≡ (contains q.pending_job_ids id || runs (Dict.get q.jobs id))
  rows_wait id = elim (Option-cases (Dict.get rows id)) [
    | inl gone ↦ rw gone (sym (nothing_waits id gone))
    | inr (row, there) ↦ ground (arith, row_waits id row there, g.known id row there)
  ]

  pub restored_pending :
      (id : String)
      → contains (restart clock (ok tt) max_attempts (at_rest base)).1.pending_job_ids id
        ≡ (contains q.pending_job_ids id || runs (Dict.get q.jobs id))
  restored_pending id =
      rw (restart-run q h g clock max_attempts)
        (waiting_again q h g clock max_attempts id ∙ rows_wait id)

  -- Where a waiting job's row puts it in the line.
  waiting_row :
      (id : String)
      → contains q.pending_job_ids id ≡ true
      → (row : Loaded) × (Dict.get rows id ≡ some row)
        × (row.1 ≡ some (sequence_of q.pending_sequences id))
        × (is_running row.0.status ≡ false)
  waiting_row id pending =
      let shown = h.pending_public id pending in
      elim (Option-cases (Dict.get q.jobs id)) [
        | inl lost ↦ ground (arith, h.pending_queued id)
        | inr (job, found) ↦
            let (row, there, is_row) = g.stored id job found shown in
            (
              row,
              there,
              ground (arith, h.sequenced id, h.pending_queued id, is_row.1, is_row.0),
              ground (arith, h.pending_queued id, is_row.0),
            )
      ]

  line-IsAt :
      (id : String)
      → contains q.pending_job_ids id ≡ true
      → IsAt id (sequence_of q.pending_sequences id) (sorted (line_of rows))
  line-IsAt id pending =
      let s = sequence_of q.pending_sequences id in
      let (row, there, at, idle) = waiting_row id pending in
      let calm : interrupts (scan_of rows).running id ≡ false =
        interrupted q h g clock max_attempts id ∙ rw there idle in
      sorted-IsAt id s (line_of rows) (
        append-IsAt id s (scan_of rows).pending _
          (scan_rows-IsAt id s 0 rows empty_scan g.distinct (rows-Keyed q h g clock max_attempts)
            (λ row' found. ground arith) tt)
          (rejoin_all-IsAt id s (first_of rows) 0 (scan_of rows).running calm))

  line_waits_pending :
      (id : String) → contains q.pending_job_ids id ≡ true → waits (sorted (line_of rows)) id ≡ true
  line_waits_pending id pending =
      line_waits q h g clock max_attempts id ∙ rows_wait id ∙ ground arith

  kept_sequence :
      (id : String)
      → contains q.pending_job_ids id ≡ true
      → Dict.get (restored clock max_attempts rows base).pending_sequences id
        ≡ Dict.get q.pending_sequences id
  kept_sequence id pending =
      line_up-sequence (sorted (line_of rows)) (requeued clock max_attempts rows base) id
        (sequence_of q.pending_sequences id) (line-IsAt id pending)
      ∙ ground (arith, line_waits_pending id, h.sequenced id)

  kept_order :
      (i j : String)
      → stands_before q.pending_job_ids i j ≡ true
      → stands_before (restored clock max_attempts rows base).pending_job_ids i j ≡ true
  kept_order i j before =
      let (pi, pj, lt) =
        stands_before-lt q.pending_sequences q.pending_job_ids i j h.ascending before in
      line_up-stands_before (sorted (line_of rows)) (requeued clock max_attempts rows base) i j
        (sequence_of q.pending_sequences i) (sequence_of q.pending_sequences j) refl
        (sorted-IsOrdered (line_of rows)) (line-IsAt i pi) (line-IsAt j pj) lt
        (line_waits_pending i pi) (line_waits_pending j pj)

  pub restored_order :
      let r = (restart clock (ok tt) max_attempts (at_rest base)).1 in
      ((id : String)
        → contains q.pending_job_ids id ≡ true
        → Dict.get r.pending_sequences id ≡ Dict.get q.pending_sequences id)
      × ((i j : String)
          → stands_before q.pending_job_ids i j ≡ true
          → stands_before r.pending_job_ids i j ≡ true)
  restored_order = rw (restart-run q h g clock max_attempts) (kept_sequence, kept_order)

  pub restored_next :
      let r = (restart clock (ok tt) max_attempts (at_rest base)).1 in
      (id : String) (s : ℤ)
      → Dict.get r.pending_sequences id ≡ some s
      → s <ℤ r.next_pending_sequence
  restored_next =
      rw (restart-run q h g clock max_attempts)
        (line_up-next (line_of rows) (requeued clock max_attempts rows base) _ refl)
