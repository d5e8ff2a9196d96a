-- ===== src/Jobs/Reads/Tests.antt =====
-- Runs of the reading methods of the job queue (services/api/job_queue.py).
use veri_doc.Prelude.{ℕ, String, ◌≡◌, refl, true, false, List, [], ◌∷◌, none, some}
use veri_doc.Prelude.Int.{pos}
use veri_doc.Prelude.Dict
use veri_doc.Prelude.Lists.{contains, select}
use veri_doc.Py.Value.{Fields, str, bytes, list, dict, nil, cons, end, field, get, py_eq}
use veri_doc.Py.Text.{is_blank}
use veri_doc.Jobs.Record.{JobRecord, JobStatus, Result, ok, succeeded}
use veri_doc.Jobs.State.{JobQueue}
use veri_doc.Jobs.Reads.{
  parse_status, same_status, artifacts_named, artifacts_in, result_artifacts, tag, matches,
  verify_artifact, check_artifact, get_artifact, list_with, list_parsed, list_jobs, is_unpublished,
  wait_round, wait_until_published,
}
use veri_doc.Jobs.Reads.Served.{
  Delivered, get_artifact-Delivered, Wakes, wait_until_published-Wakes,
}
use veri_doc.Jobs.Reads.Listed.{Lists, list_jobs-Lists}

abbrev digest : List ℕ → String
digest content = "d"

abbrev accept : JobRecord → Result (Unit {0})
accept job = ok tt

abbrev sheet : Fields
sheet =
    field "artifact_id" (str "a-1")
      (field "content" (bytes (1 ∷ [])) (field "sha256" (str "d") end))

abbrev done : JobRecord
done = record {
  job_id = "job-1";
  idempotency_key = "key";
  filename = "batch.pdf";
  mode = "standard";
  status = succeeded;
  source = none;
  template = none;
  request_parameters = none;
  attempts = 0;
  result = some (field "artifacts" (list (cons (dict sheet) nil)) end);
  error = none;
  retryable = true;
  created_at = "t0";
  updated_at = "t1";
}

abbrev queue : List String → JobQueue (Unit {0})
queue hidden = record {
  max_attempts = 3;
  jobs = ("job-1", done) ∷ [];
  idempotency_index = ("key", "job-1") ∷ [];
  pending_job_ids = [];
  pending_sequences = [];
  next_pending_sequence = pos 0;
  unpublished_job_ids = hidden;
  store = tt;
}

-- Opening this opens the methods.
runs : Unit {0}
unfolding Dict.get contains select is_blank get py_eq parse_status same_status artifacts_named
    artifacts_in result_artifacts tag matches verify_artifact check_artifact get_artifact list_with
    list_parsed list_jobs is_unpublished wait_round wait_until_published
runs = tt

get_artifact-Delivered_example : Delivered digest accept "a-1" (queue []) sheet
unfolding runs
get_artifact-Delivered_example = get_artifact-Delivered digest accept "a-1" (queue []) sheet refl

wait_until_published-Wakes_example :
    (q : JobQueue (Unit {0})) × Wakes q ((queue ("job-1" ∷ []), false) ∷ (queue [], false) ∷ [])
    × (Dict.get q.jobs "job-1" ≡ some done)
    × (is_unpublished "job-1" q ≡ false)
unfolding runs
wait_until_published-Wakes_example =
    wait_until_published-Wakes "job-1" ((queue ("job-1" ∷ []), false) ∷ (queue [], false) ∷ []) done
      refl

list_jobs-Lists_example :
    (status : JobStatus) × (parse_status "succeeded" ≡ some status)
    × Lists (queue []) status (done ∷ [])
unfolding runs
list_jobs-Lists_example = list_jobs-Lists (queue []) "succeeded" (done ∷ []) refl
