-- ===== src/Jobs/Durable/Restart/Line.antt =====
-- The pending deque that `_restore_jobs` (services/api/job_queue.py) builds: sorted by the sequences
-- that the jobs had.
use veri_doc.Prelude.{
  ℕ, suc, String, ◌≡◌, refl, true, false, ◌||◌, List, [], ◌∷◌, ◌++◌, Option, none, some, arith,
  eq_iff, ◌==◌, ◌∙◌, sym, Bool-cases, inl, inr, if◌then◌else◌,
}
use veri_doc.Prelude.Int.{ℤ, ◌≤ℤ◌}
use veri_doc.Prelude.Dict
use veri_doc.Prelude.Dict.{Dict, get-put, get-empty, Distinct}
use veri_doc.Prelude.Lists.{contains, contains-append}
use veri_doc.Jobs.Record.{is_queued}
use veri_doc.Jobs.State.{JobQueue, push_pending}
use veri_doc.Jobs.Durable.{Database}
use veri_doc.Jobs.Durable.Restart.{
  Loaded, Waiting, Interrupted, Scan, add_waiting, scan_row, scan_rows, goes_first, insert, sorted,
  line_up,
}
use veri_doc.Jobs.Durable.Restart.Loop.{interrupts, rejoin_all}
use veri_doc.Jobs.Durable.Restart.Load.{
  waits, Keyed, Keyed-head, Keyed-tail, tail_get, head_get, get_at,
}

insert-waits :
    (w : Waiting) (ws : List Waiting) (id : String)
    → waits (insert w ws) id ≡ (w.job_id == id || waits ws id)
unfolding waits insert
insert-waits w [] id = refl
insert-waits w (v ∷ vs) id = ground (arith, insert-waits w vs id)

pub sorted-waits : (ws : List Waiting) (id : String) → waits (sorted ws) id ≡ waits ws id
unfolding waits sorted
sorted-waits [] id = refl
sorted-waits (w ∷ ws) id = insert-waits w (sorted ws) id ∙ ground (arith, sorted-waits ws id)

-- No entry's sequence is below `n`.
abbrev pub AllFrom : ℤ → List Waiting → Type 0
AllFrom n [] = Unit
AllFrom n (w ∷ ws) = (n ≤ℤ w.sequence) × AllFrom n ws

abbrev pub IsOrdered : List Waiting → Type 0
IsOrdered [] = Unit
IsOrdered (w ∷ ws) = AllFrom w.sequence ws × IsOrdered ws

AllFrom-weaken : (m n : ℤ) (ws : List Waiting) → m ≤ℤ n → AllFrom n ws → AllFrom m ws
AllFrom-weaken m n [] le h = tt
AllFrom-weaken m n (w ∷ ws) le h = (ground arith, AllFrom-weaken m n ws le h.1)

insert-AllFrom :
    (n : ℤ) (w : Waiting) (ws : List Waiting)
    → n ≤ℤ w.sequence
    → AllFrom n ws
    → AllFrom n (insert w ws)
unfolding insert
insert-AllFrom n w [] le h = (le, tt)
insert-AllFrom n w (v ∷ vs) le h = elim (Bool-cases (goes_first v w)) [
  | inl later ↦ rw later (h.0, insert-AllFrom n w vs le h.1)
  | inr now ↦ rw now (le, h)
]

goes_first-le : (v w : Waiting) → goes_first v w ≡ true → v.sequence ≤ℤ w.sequence
unfolding goes_first
goes_first-le v w h = ground arith

not_goes_first-le : (v w : Waiting) → goes_first v w ≡ false → w.sequence ≤ℤ v.sequence
unfolding goes_first
not_goes_first-le v w h = ground arith

insert-IsOrdered : (w : Waiting) (ws : List Waiting) → IsOrdered ws → IsOrdered (insert w ws)
unfolding insert
insert-IsOrdered w [] h = (tt, tt)
insert-IsOrdered w (v ∷ vs) h = elim (Bool-cases (goes_first v w)) [
  | inl later ↦
      rw later
        (insert-AllFrom v.sequence w vs (goes_first-le v w later) h.0, insert-IsOrdered w vs h.1)
  | inr now ↦
      let le = not_goes_first-le v w now in
      rw now ((le, AllFrom-weaken w.sequence v.sequence vs le h.0), h)
]

pub sorted-IsOrdered : (ws : List Waiting) → IsOrdered (sorted ws)
unfolding sorted
sorted-IsOrdered [] = tt
sorted-IsOrdered (w ∷ ws) = insert-IsOrdered w (sorted ws) (sorted-IsOrdered ws)

-- Every entry of the job has that sequence.
abbrev pub IsAt : String → ℤ → List Waiting → Type 0
IsAt id s [] = Unit
IsAt id s (w ∷ ws) = (w.job_id ≡ id → w.sequence ≡ s) × IsAt id s ws

module _ (id : String) (s : ℤ) where
  insert-IsAt :
      (w : Waiting) (ws : List Waiting)
      → (w.job_id ≡ id → w.sequence ≡ s)
      → IsAt id s ws
      → IsAt id s (insert w ws)
  unfolding insert
  insert-IsAt w [] at h = (at, tt)
  insert-IsAt w (v ∷ vs) at h = elim (Bool-cases (goes_first v w)) [
    | inl later ↦ rw later (h.0, insert-IsAt w vs at h.1)
    | inr now ↦ rw now (at, h)
  ]

  pub sorted-IsAt : (ws : List Waiting) → IsAt id s ws → IsAt id s (sorted ws)
  unfolding sorted
  sorted-IsAt [] h = tt
  sorted-IsAt (w ∷ ws) h = insert-IsAt w (sorted ws) h.0 (sorted-IsAt ws h.1)

  pub append-IsAt : (vs ws : List Waiting) → IsAt id s vs → IsAt id s ws → IsAt id s (vs ++ ws)
  append-IsAt [] ws h k = k
  append-IsAt (v ∷ vs) ws h k = (h.0, append-IsAt vs ws h.1 k)

  -- What was not interrupted does not rejoin.
  pub rejoin_all-IsAt :
      (first : ℤ) (index : ℕ) (rs : List Interrupted)
      → interrupts rs id ≡ false
      → IsAt id s (rejoin_all first index rs)
  unfolding rejoin_all interrupts
  rejoin_all-IsAt first index [] h = tt
  rejoin_all-IsAt first index (r ∷ rs) h = (
    (λ e. ground (arith, eq_iff r.job.job_id id)),
    rejoin_all-IsAt first (suc index) rs (ground arith),
  )

  add_waiting-IsAt :
      (o : Option ℤ) (n : ℕ) (k : String) (ws : List Waiting)
      → (k ≡ id → o ≡ some s)
      → IsAt id s ws
      → IsAt id s (add_waiting o n k ws)
  add_waiting-IsAt none n k ws at h = h
  add_waiting-IsAt (some t) n k ws at h = append-IsAt ws _ h ((λ e. ground (arith, at e)), tt)

  -- The rows give a job the sequence that its row has.
  pub scan_rows-IsAt :
      (n : ℕ) (rows : Dict Loaded) (q : Scan)
      → Distinct rows
      → Keyed rows
      → ((row : Loaded) → Dict.get rows id ≡ some row → row.1 ≡ some s)
      → IsAt id s q.pending
      → IsAt id s (scan_rows n rows q).pending
  unfolding scan_rows scan_row
  scan_rows-IsAt n [] q d keyed at h = h
  scan_rows-IsAt n ((k, row) ∷ rows) q d keyed at h =
      let own = Keyed-head k row rows d keyed in
      scan_rows-IsAt (suc n) rows (scan_row n row q) d.1 (Keyed-tail k row rows d keyed)
        (λ row' found. at row' (tail_get k row rows d id row' found))
        (elim (Bool-cases (is_queued row.0.status)) [
          | inl queues ↦ rw queues (
              add_waiting-IsAt row.1 n row.0.job_id q.pending
                (λ e. at row (get_at ((k, row) ∷ rows) row (sym e ∙ own) (head_get k row rows d)))
                h)
          | inr idle ↦ rw idle h
        ])

contains_one : (x id : String) → contains (x ∷ []) id ≡ (x == id)
unfolding contains
contains_one x id = ground arith

pub line_up-contains :
    (ws : List Waiting) (q : JobQueue Database) (id : String)
    → contains (line_up ws q).pending_job_ids id ≡ (contains q.pending_job_ids id || waits ws id)
unfolding line_up waits push_pending
line_up-contains [] q id = ground arith
line_up-contains (w ∷ ws) q id =
    line_up-contains ws (push_pending w.job_id w.sequence q) id
    ∙ ground (arith, contains-append q.pending_job_ids (w.job_id ∷ []) id, contains_one w.job_id id)

pub line_up-sequence :
    (ws : List Waiting) (q : JobQueue Database) (id : String) (s : ℤ)
    → IsAt id s ws
    → Dict.get (line_up ws q).pending_sequences id
      ≡ (if waits ws id then some s else Dict.get q.pending_sequences id)
unfolding line_up waits push_pending
line_up-sequence [] q id s at = refl
line_up-sequence (w ∷ ws) q id s at =
    line_up-sequence ws (push_pending w.job_id w.sequence q) id s at.1
    ∙ ground (arith, get-put q.pending_sequences w.job_id id w.sequence, eq_iff w.job_id id, at.0)

-- The two tables that the deque does not touch.
pub line_up-others :
    (ws : List Waiting) (q : JobQueue Database)
    → ((line_up ws q).jobs ≡ q.jobs)
      × ((line_up ws q).idempotency_index ≡ q.idempotency_index)
      × ((line_up ws q).unpublished_job_ids ≡ q.unpublished_job_ids)
      × ((line_up ws q).store ≡ q.store)
unfolding line_up push_pending
line_up-others [] q = (refl, refl, refl, refl)
line_up-others (w ∷ ws) q = line_up-others ws (push_pending w.job_id w.sequence q)
