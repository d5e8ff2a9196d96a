-- ===== src/Jobs/Durable/Restart.antt =====
-- The start of a durable `JobQueue` (services/api/job_queue.py) from what its database holds:
-- `_restore_jobs`. A row's place in the database stands for its rowid, which only orders. Reading
-- the artifact files back may raise, and so may the write of a recovered job. `clock` gives the
-- readings of `_utc_now`, one for each recovered job.
pub mod Loop
pub mod Load
pub mod Reading
pub mod Line
pub mod Standing
pub mod Bounds
pub mod Recovery
pub mod Carried
pub mod Promise
pub mod Seen
use veri_doc.Prelude.{
  ℕ, suc, String, Bool, true, false, ◌&&◌, ◌||◌, List, [], ◌∷◌, ◌++◌, Option, none, some,
  if◌then◌else◌, ltb,
}
use veri_doc.Prelude.Int.{ℤ, pos, ◌+ℤ◌, ◌-ℤ◌, ltb_ℤ, eqb_ℤ}
use veri_doc.Prelude.Dict
use veri_doc.Prelude.Dict.{Dict}
use veri_doc.Prelude.Lists.{length}
use veri_doc.Jobs.Record.{JobRecord, queued, is_queued, is_running, Error, Result, ok, err}
use veri_doc.Jobs.Codec.{both}
use veri_doc.Jobs.Codec.Job.{encode_job, decode_job}
use veri_doc.Jobs.Exec.{Exec, return, gets, lift, modify, ◌>>=◌, ◌>>◌}
use veri_doc.Jobs.State.{JobQueue, put_job, push_pending, persist}
use veri_doc.Jobs.System.{new_queue}
use veri_doc.Jobs.Durable.{Row, Database, durable}

-- A row that is read: the job, and its queue_sequence.
abbrev pub Loaded : Type 0
Loaded = JobRecord × Option ℤ

abbrev loaded : String → Option ℤ → JobRecord → Dict Loaded → Dict Loaded
loaded id sequence job rest = (id, (job, sequence)) ∷ rest

-- The rows decoded, in their order. `_restore_jobs` does it as it goes through them, and the tables
-- that it has filled before it raises are given up with the new object.
unfoldable pub load_rows : Dict Row → Result (Dict Loaded)
load_rows [] = ok []
load_rows ((id, row) ∷ rows) = both (loaded id row.1) (decode_job row.0) (load_rows rows)

-- (queue_sequence, rowid, job_id)
pub record Waiting : Type 0 where
  pub sequence : ℤ
  pub rowid : ℕ
  pub job_id : String

-- (rowid, queue_sequence, job)
pub record Interrupted : Type 0 where
  pub rowid : ℕ
  pub sequence : Option ℤ
  pub job : JobRecord

-- What the loop over the rows fills.
pub record Scan : Type 0 where
  pub jobs : Dict JobRecord
  pub index : Dict String
  pub pending : List Waiting
  pub running : List Interrupted

abbrev pub empty_scan : Scan
empty_scan = record { jobs = []; index = []; pending = []; running = [] }

abbrev pub add_waiting : Option ℤ → ℕ → String → List Waiting → List Waiting
add_waiting none rowid job_id pending = pending
add_waiting (some s) rowid job_id pending =
    pending ++ (record { sequence = s; rowid = rowid; job_id = job_id }) ∷ []

unfoldable pub scan_row : ℕ → Loaded → Scan → Scan
scan_row rowid row s = record {
  jobs = Dict.put s.jobs row.0.job_id row.0;
  index = Dict.put s.index row.0.idempotency_key row.0.job_id;
  pending =
      if is_queued row.0.status then add_waiting row.1 rowid row.0.job_id s.pending else s.pending;
  running =
      if is_running row.0.status
      then s.running ++ (record { rowid = rowid; sequence = row.1; job = row.0 }) ∷ []
      else s.running;
}

unfoldable pub scan_rows : ℕ → Dict Loaded → Scan → Scan
scan_rows rowid [] s = s
scan_rows rowid ((id, row) ∷ rows) s = scan_rows (suc rowid) rows (scan_row rowid row s)

-- min(sequences), which is not empty
unfoldable pub least_from : ℤ → List Waiting → ℤ
least_from m [] = m
least_from m (w ∷ ws) = least_from (if ltb_ℤ w.sequence m then w.sequence else m) ws

-- min(sequences, default=0)
unfoldable pub least : List Waiting → ℤ
least [] = pos 0
least (w ∷ ws) = least_from w.sequence ws

-- max(sequences), which is not empty
unfoldable pub greatest_from : ℤ → List Waiting → ℤ
greatest_from m [] = m
greatest_from m (w ∷ ws) = greatest_from (if ltb_ℤ m w.sequence then w.sequence else m) ws

abbrev pub place_of : Option ℤ → ℤ → ℤ
place_of none fallback = fallback
place_of (some s) fallback = s

abbrev pub recovered : JobRecord → String → JobRecord
recovered job now = record job { status = queued; updated_at = now }

abbrev pub rejoined : ℤ → ℕ → Interrupted → Waiting
rejoined first index r = record {
  sequence = place_of r.sequence (first +ℤ pos index);
  rowid = r.rowid;
  job_id = r.job.job_id;
}

-- The loop over the jobs that were running: each is queued again, in the table and in its row.
unfoldable pub requeue_running :
    (ℕ → String) → ℤ → ℕ → List Interrupted → List Waiting → Exec (JobQueue Database) (List Waiting)
requeue_running clock first index [] pending = return pending
requeue_running clock first index (r ∷ running) pending = do
  let again = recovered r.job (clock index)
  persist durable again (some (rejoined first index r).sequence) none
  modify (put_job again)
  requeue_running clock first (suc index) running (pending ++ rejoined first index r ∷ [])

-- The order of the tuples. No two have the same rowid.
unfoldable pub goes_first : Waiting → Waiting → Bool
goes_first a b = ltb_ℤ a.sequence b.sequence || eqb_ℤ a.sequence b.sequence && ltb a.rowid b.rowid

unfoldable pub insert : Waiting → List Waiting → List Waiting
insert w [] = w ∷ []
insert w (v ∷ vs) = if goes_first v w then v ∷ insert w vs else w ∷ v ∷ vs

-- sorted(pending_jobs)
unfoldable pub sorted : List Waiting → List Waiting
sorted [] = []
sorted (w ∷ ws) = insert w (sorted ws)

unfoldable pub line_up : List Waiting → JobQueue Database → JobQueue Database
line_up [] q = q
line_up (w ∷ ws) q = line_up ws (push_pending w.job_id w.sequence q)

unfoldable pub next_after : List Waiting → ℤ → ℤ
next_after [] next = next
next_after (w ∷ ws) next = greatest_from w.sequence ws +ℤ pos 1

abbrev pub set_next : ℤ → JobQueue Database → JobQueue Database
set_next next q = record q { next_pending_sequence = next }

-- `_restore_jobs`, given what reading the artifact files of the rows comes to
unfoldable pub restore_jobs : (ℕ → String) → Result (Unit {0}) → Exec (JobQueue Database) (Unit {0})
restore_jobs clock files = do
  rows ← gets (λ q. q.store.rows)
  lift files
  loaded_rows ← lift (load_rows rows)
  let scan = scan_rows 0 loaded_rows empty_scan
  modify (λ q. record q { jobs = scan.jobs; idempotency_index = scan.index })
  let first = least scan.pending -ℤ pos (length scan.running)
  pending ← requeue_running clock first 0 scan.running scan.pending
  modify (line_up (sorted pending))
  modify (λ q. set_next (next_after pending q.next_pending_sequence) q)

-- A new object over the database that another one leaves behind.
unfoldable pub restart :
    (ℕ → String) → Result (Unit {0}) → ℕ → Database → Result (Unit {0}) × JobQueue Database
restart clock files max_attempts db = restore_jobs clock files (new_queue max_attempts db)
