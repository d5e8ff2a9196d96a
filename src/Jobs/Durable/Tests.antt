-- ===== src/Jobs/Durable/Tests.antt =====
-- Runs of a durable job queue (services/api/job_queue.py), with a restart.
use veri_doc.Prelude.{
  ℕ, String, ◌≡◌, refl, true, List, [], ◌∷◌, none, some, arith, Bool-cases, inl, inr, ◌==◌,
}
use veri_doc.Prelude.Int.{◌+ℤ◌, ◌-ℤ◌, ◌<ℤ◌, pos}
use veri_doc.Prelude.Dict
use mathlib.Core.Path.{subst}
use veri_doc.Prelude.Dict.{Dict}
use veri_doc.Prelude.Lists.{contains, any, remove_first, add_once, discard}
use veri_doc.Jobs.Codec.RoundTrip.{IsProperFields}
use veri_doc.Py.Value.{Fields, end, field, str, int, tuple, cons, nil, py_eq, get, has}
use veri_doc.Py.Text.{is_blank}
use veri_doc.Jobs.Record.{JobRecord, ok, err, external_error}
use veri_doc.Jobs.Request.{
  JobRequest, normalize_job_request, same_fields, same_source_binding, same_template_binding,
}
use veri_doc.Jobs.Exec.{◌>>=◌}
use veri_doc.Jobs.State.{
  JobQueue, has_active_high_quality_job, has_running_high_quality_job, put_job, register,
  mark_published, drop_pending, forget_job, push_pending, append_pending, allocate_pending_sequence,
  persist, delete_persisted,
}
use veri_doc.Jobs.Queue.{
  Fresh, find_job, allocate_if, same_request, get_idempotent_job_locked, create_job_locked,
  create_job, discard_queued_job,
}
use veri_doc.Jobs.Worker.{replace_job, start_next_job}
use veri_doc.Jobs.Invariant.{Inv}
use veri_doc.Jobs.System.{create, start_next, Reach, here, next, new_queue}
use veri_doc.Jobs.System.Safety.{new_queue-Inv, Reach-Inv}
use veri_doc.Jobs.Durable.{
  Database, after_commit, durable, key_taken, upsert, save_row, delete_with, delete_row,
}
use veri_doc.Jobs.Durable.Writes.{is_clean}
use veri_doc.Jobs.Durable.Calls.{Faithful}
use veri_doc.Jobs.Durable.System.{Reach-Faithful}
use veri_doc.Jobs.Durable.Faults.{discard-forgets_row}
use veri_doc.Jobs.Codec.{
  extract_binary_artifacts, restore_binary_artifacts, encode_persisted_value, project,
  decode_persisted_value,
}
use veri_doc.Jobs.Codec.Job.{encode_job, decode_job, to_dict, job_from}
use veri_doc.Jobs.Codec.JobRoundTrip.{IsProperJob}
use veri_doc.Jobs.Durable.Restart.{
  restart, load_rows, restore_jobs, scan_row, scan_rows, least, least_from, requeue_running, insert,
  goes_first, sorted, line_up, next_after, greatest_from,
}
use veri_doc.Jobs.Durable.Restart.Standing.{stands_before}
use veri_doc.Jobs.Durable.Restart.Recovery.{after_crash}
use veri_doc.Jobs.Durable.Restart.Promise.{restart-pending, restart-order, restart-next}
use veri_doc.Jobs.Durable.Restart.Seen.{AllProper}

-- Opening this opens the methods that run here.
runs : Unit {0}
unfolding Dict.get Dict.put Dict.remove contains any remove_first add_once discard is_blank py_eq
    get same_fields same_source_binding same_template_binding normalize_job_request ◌>>=◌
    has_active_high_quality_job has_running_high_quality_job put_job register mark_published
    drop_pending forget_job push_pending append_pending allocate_pending_sequence persist
    delete_persisted find_job allocate_if same_request get_idempotent_job_locked create_job_locked
    create_job discard_queued_job replace_job start_next_job ◌+ℤ◌ ◌-ℤ◌ key_taken upsert save_row
    delete_with delete_row restart restore_jobs scan_row scan_rows least least_from requeue_running
    encode_job decode_job decode_persisted_value encode_persisted_value extract_binary_artifacts
    project to_dict restore_binary_artifacts job_from load_rows insert goes_first sorted line_up
    next_after greatest_from is_clean stands_before
runs = tt

abbrev digest : List ℕ → String
digest content = "00"

abbrev clock : ℕ → String
clock _ = "t9"

abbrev first_fresh : Fresh
first_fresh = record { job_id = "job-1"; created_at = "t0"; updated_at = "t0" }

abbrev second_fresh : Fresh
second_fresh = record { job_id = "job-2"; created_at = "t1"; updated_at = "t1" }

abbrev third_fresh : Fresh
third_fresh = record { job_id = "job-3"; created_at = "t1"; updated_at = "t1" }

abbrev source : Fields
source =
    field "sha256" (str "00")
      (field "pages" (tuple (cons (int (pos 1)) (cons (int (pos 2)) nil))) end)

abbrev request : String → JobRequest
request key = record {
  idempotency_key = key;
  filename = "batch.pdf";
  mode = "standard";
  source = some source;
  template = none;
  request_parameters = none;
}

abbrev q0 : JobQueue Database
q0 = new_queue 3 (record { rows = []; faults = [] })

abbrev q1 : JobQueue Database
q1 = (create_job digest durable first_fresh (request "a") true q0).1

abbrev q2 : JobQueue Database
q2 = (create_job digest durable second_fresh (request "b") true q1).1

abbrev q3 : JobQueue Database
q3 = (create_job digest durable third_fresh (request "c") true q2).1

-- One job runs and two wait when the process ends.
abbrev q4 : JobQueue Database
q4 = (start_next_job durable "t2" q3).1

reach3 : Reach digest durable q0 q3
unfolding runs
reach3 =
    next
      (next (next here (create first_fresh (request "a") true refl))
        (create second_fresh (request "b") true refl))
      (create third_fresh (request "c") true refl)

reach4 : Reach digest durable q0 q4
reach4 = next reach3 (start_next "t2")

inv4 : Inv q4
inv4 = Reach-Inv digest durable (new_queue-Inv 3 _) reach4

new-Faithful : Faithful q0
unfolding is_clean Dict.get
new-Faithful = (record { stored = λ id job e public. cc; known = λ id row e. cc }, (refl, tt))

faithful4 : Faithful q4
faithful4 = Reach-Faithful digest (new_queue-Inv 3 _) new-Faithful reach4

Reach-Faithful_example : Faithful q4
Reach-Faithful_example = Reach-Faithful digest (new_queue-Inv 3 _) new-Faithful reach4

abbrev AllProperJobs : Dict JobRecord → Type 0
AllProperJobs [] = Unit
AllProperJobs ((id, job) ∷ jobs) = IsProperJob job × AllProperJobs jobs

get-IsProper :
    (jobs : Dict JobRecord) (id : String) (job : JobRecord)
    → AllProperJobs jobs
    → Dict.get jobs id ≡ some job
    → IsProperJob job
unfolding Dict.get
get-IsProper [] id job all found = ground arith
get-IsProper ((k, other) ∷ jobs) id job all found = elim (Bool-cases (k == id)) [
  | inl hit ↦ let e : other ≡ job = ground arith in subst IsProperJob e all.0
  | inr miss ↦ get-IsProper jobs id job all.1 (ground arith)
]

-- The source of each job names no key twice.
abbrev IsProperSource : Type 0
IsProperSource = IsProperFields source × Unit {0} × Unit {0} × Unit {0}

proper : IsProperSource
unfolding has
proper = ((refl, tt, (refl, (tt, (tt, tt)), tt)), tt, tt, tt)

all4 : AllProperJobs q4.jobs
unfolding runs has
all4 = (proper, (proper, (proper, tt)))

proper4 : AllProper q4
proper4 id job found = get-IsProper q4.jobs id job all4 found

restart_run :
    (restart clock (ok tt) 3 (after_crash q4)).1.pending_job_ids ≡ "job-1" ∷ "job-2" ∷ "job-3" ∷ []
unfolding runs
restart_run = refl

restart-pending_example :
    contains (restart clock (ok tt) 3 (after_crash q4)).1.pending_job_ids "job-1" ≡ true
unfolding runs
restart-pending_example = restart-pending q4 inv4 faithful4 proper4 clock 3 "job-1"

restart-order_example :
    let r = (restart clock (ok tt) 3 (after_crash q4)).1 in
    ((id : String)
      → contains q4.pending_job_ids id ≡ true
      → Dict.get r.pending_sequences id ≡ Dict.get q4.pending_sequences id)
    × ((i j : String)
        → stands_before q4.pending_job_ids i j ≡ true
        → stands_before r.pending_job_ids i j ≡ true)
restart-order_example = restart-order q4 inv4 faithful4 proper4 clock 3

restart-next_example : pos 2 <ℤ (restart clock (ok tt) 3 (after_crash q4)).1.next_pending_sequence
unfolding runs
restart-next_example = restart-next q4 inv4 faithful4 proper4 clock 3 "job-3" (pos 2) refl

-- The removal of an artifact file fails behind the deletion of the row.
abbrev q5 : JobQueue Database
q5 = record q3 { store = record { rows = q3.store.rows; faults = after_commit ∷ [] } }

discard-forgets_row_example :
    let r = discard_queued_job durable "job-2" q5 in
    (r.0 ≡ err (external_error "artifact cleanup"))
    × (Dict.get r.1.jobs "job-2" ≡ Dict.get q3.jobs "job-2")
    × (Dict.get r.1.store.rows "job-2" ≡ none)
unfolding runs
discard-forgets_row_example = discard-forgets_row q5 "job-2" _ [] refl refl refl
