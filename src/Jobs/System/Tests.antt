-- ===== src/Jobs/System/Tests.antt =====
-- Runs of the job queue (services/api/job_queue.py) on a queue without a database.
use veri_doc.Prelude.{ℕ, String, ◌≡◌, refl, true, false, List, [], ◌∷◌, none, some}
use veri_doc.Prelude.Int.{◌+ℤ◌}
use veri_doc.Prelude.Dict
use veri_doc.Prelude.Lists.{length, contains, any, remove_first, add_once, discard}
use veri_doc.Py.Value.{end, field, str, py_eq, get, has}
use veri_doc.Py.Text.{is_blank}
use veri_doc.Jobs.Record.{JobRecord, running, ok, value_error}
use veri_doc.Jobs.Request.{
  JobRequest, normalize_job_request, same_fields, same_source_binding, same_template_binding,
}
use veri_doc.Jobs.Exec.{◌>>=◌}
use veri_doc.Jobs.State.{
  JobQueue, has_active_high_quality_job, has_running_high_quality_job, put_job, register,
  mark_published, drop_pending, forget_job, push_pending, append_pending, allocate_pending_sequence,
  persist, delete_persisted,
}
use veri_doc.Jobs.Queue.{
  Fresh, new_job, find_job, allocate_if, same_request, get_idempotent_job_locked, create_job_locked,
  create_job, publish_job, enqueue_job, discard_queued_job,
}
use veri_doc.Jobs.Worker.{
  replace_job, start_next_job, start_job, mark_succeeded, mark_failed, retry_failed_job,
}
use veri_doc.Jobs.Saved.{volatile, volatile_save, Saves-volatile}
use veri_doc.Jobs.Invariant.{Inv}
use veri_doc.Jobs.System.Safety.{new_queue-Inv, Reach-Inv}
use veri_doc.Jobs.System.Lifecycle.{Move}
use veri_doc.Jobs.System.Atomic.{SameTables}
use veri_doc.Jobs.System.Calls.{Step-Move, Step-IsAtomic, succeeded_forever}
use veri_doc.Jobs.System.Service.{Takes, start_next_job-fifo}
use veri_doc.Jobs.System.Failure.{Fails, mark_failed-outcome}
use veri_doc.Jobs.System.Drain.{work, HasSucceeded, work-done}
use veri_doc.Jobs.System.Idempotent.{IsPlainRequest, create_job-idempotent}
use veri_doc.Jobs.System.{create, start_next, succeed, Reach, here, next, new_queue}

-- Opening this opens every method.
runs : Unit {0}
unfolding Dict.get Dict.put Dict.remove contains any remove_first add_once discard is_blank py_eq
    get same_fields same_source_binding same_template_binding normalize_job_request ◌>>=◌
    has_active_high_quality_job has_running_high_quality_job put_job register mark_published
    drop_pending forget_job push_pending append_pending allocate_pending_sequence persist
    delete_persisted find_job allocate_if same_request get_idempotent_job_locked create_job_locked
    create_job publish_job enqueue_job discard_queued_job replace_job start_next_job start_job
    mark_succeeded mark_failed retry_failed_job ◌+ℤ◌ volatile_save
runs = tt

abbrev digest : List ℕ → String
digest content = "00"

abbrev first_fresh : Fresh
first_fresh = record { job_id = "job-1"; created_at = "t0"; updated_at = "t0" }

abbrev second_fresh : Fresh
second_fresh = record { job_id = "job-2"; created_at = "t1"; updated_at = "t1" }

abbrev request : JobRequest
request = record {
  idempotency_key = " key ";
  filename = "batch.pdf";
  mode = "high_quality";
  source = some (field "sha256" (str "00") end);
  template = none;
  request_parameters = none;
}

abbrev q0 : JobQueue (Unit {0})
q0 = new_queue 3 tt

abbrev q1 : JobQueue (Unit {0})
q1 = (create_job digest volatile first_fresh request true q0).1

abbrev q2 : JobQueue (Unit {0})
q2 = (start_next_job volatile "t2" q1).1

abbrev q3 : JobQueue (Unit {0})
q3 = (mark_succeeded volatile "t3" "job-1" end q2).1

reach1 : Reach digest volatile q0 q1
unfolding runs
reach1 = next here (create first_fresh request true refl)

reach3 : Reach digest volatile q0 q3
reach3 = next (next reach1 (start_next "t2")) (succeed "t3" "job-1" end)

plain_request : IsPlainRequest (record request { idempotency_key = "key" })
unfolding has
plain_request = record { plain_source = (refl, tt, tt); plain_template = tt; plain_parameters = tt }

inv1 : Inv q1
inv1 = Reach-Inv digest volatile (new_queue-Inv 3 tt) reach1

inv3 : Inv q3
inv3 = Reach-Inv digest volatile (new_queue-Inv 3 tt) reach3

Reach-Inv_example : Inv q3
Reach-Inv_example = Reach-Inv digest volatile (new_queue-Inv 3 tt) reach3

Step-Move_example :
    Move (Dict.get q1.jobs "job-1") (Dict.get (start_next_job volatile "t2" q1).1.jobs "job-1")
Step-Move_example = Step-Move digest volatile inv1 (start_next "t2") "job-1"

Step-IsAtomic_example : SameTables q1 (mark_succeeded volatile "t3" "job-1" end q1).1
unfolding runs
Step-IsAtomic_example =
    Step-IsAtomic digest volatile inv1 (succeed "t3" "job-1" end)
      (value_error "job must be running") refl

succeeded_forever_example :
    Dict.get (create_job digest volatile second_fresh request false q3).1.jobs "job-1"
    ≡ Dict.get q3.jobs "job-1"
unfolding runs
succeeded_forever_example =
    succeeded_forever digest volatile inv3 (next here (create second_fresh request false refl))
      "job-1" _ refl refl

start_next_job-fifo_example :
    Takes volatile Saves-volatile q1 inv1 "t2" "job-1" [] (start_next_job volatile "t2" q1)
unfolding runs
start_next_job-fifo_example =
    start_next_job-fifo volatile Saves-volatile q1 inv1 "t2" "job-1" [] refl

create_job-idempotent_example :
    create_job digest volatile second_fresh request true q1
    ≡ (ok (new_job first_fresh (record request { idempotency_key = "key" })), q1)
unfolding runs
create_job-idempotent_example =
    create_job-idempotent digest volatile first_fresh second_fresh request
      (record request { idempotency_key = "key" }) true true q0
      (new_job first_fresh (record request { idempotency_key = "key" })) (new_queue-Inv 3 tt) refl
      plain_request refl refl

inv2 : Inv q2
inv2 = Reach-Inv digest volatile (new_queue-Inv 3 tt) (next reach1 (start_next "t2"))

abbrev running_job : JobRecord
running_job = record (new_job first_fresh (record request { idempotency_key = "key" })) {
  status = running;
  updated_at = "t2";
}

mark_failed-outcome_example :
    Fails volatile Saves-volatile q2 inv2 "t3" "job-1" "lost" true running_job
      (mark_failed volatile "t3" "job-1" "lost" true q2)
unfolding runs
mark_failed-outcome_example =
    mark_failed-outcome volatile Saves-volatile q2 inv2 "t3" "job-1" "lost" true running_job refl
      refl

created_pending : q1.pending_job_ids ≡ "job-1" ∷ []
unfolding runs
created_pending = refl

work-done_example :
    let q = work volatile "t3" end (length q1.pending_job_ids) q1 in
    (q.pending_job_ids ≡ [])
    × ((id : String) → contains q1.pending_job_ids id ≡ true → HasSucceeded volatile q id)
work-done_example = work-done volatile Saves-volatile "t3" end q1 inv1
