-- ===== src/Jobs/Queue.antt =====
-- The methods of `JobQueue` (services/api/job_queue.py) that create, publish and discard jobs. Each
-- runs under the queue's lock, so it is one step of the state; `_utc_now` and `uuid4` are its
-- arguments, as are the callbacks. deepcopy is the identity on values.
use veri_doc.Prelude.{
  ℕ, String, Bool, true, false, ◌&&◌, ◌||◌, not, List, Option, none, some, ◌==◌, if◌then◌else◌,
}
use veri_doc.Prelude.Int.{ℤ}
use veri_doc.Prelude.Dict
use veri_doc.Prelude.Lists.{contains}
use veri_doc.Py.Value.{Fields}
use veri_doc.Jobs.Record.{
  JobRecord, queued, is_queued, Result, ok, err, key_error, value_error, runtime_error,
}
use veri_doc.Jobs.Request.{
  JobRequest, normalize_job_request, same_fields, same_source_binding, same_template_binding,
}
use veri_doc.Jobs.Exec.{
  Exec, return, raise, gets, lift, modify, raise_if, when, choose, ◌>>=◌, ◌>>◌,
}
use veri_doc.Jobs.State.{
  Persistence, JobQueue, has_active_high_quality_job, register, mark_published, forget_job,
  append_pending, allocate_pending_sequence, persist, delete_persisted,
}

-- uuid4().hex behind "job-", and the two readings of the clock of a new record
pub record Fresh : Type 0 where
  pub job_id : String
  pub created_at : String
  pub updated_at : String

abbrev pub new_job : Fresh → JobRequest → JobRecord
new_job fresh r = record {
  job_id = fresh.job_id;
  idempotency_key = r.idempotency_key;
  filename = r.filename;
  mode = r.mode;
  status = queued;
  source = r.source;
  template = r.template;
  request_parameters = r.request_parameters;
  attempts = 0;
  result = none;
  error = none;
  retryable = true;
  created_at = fresh.created_at;
  updated_at = fresh.updated_at;
}

module _ {Store : Type 0} where
  -- self._jobs[job_id], with its KeyError
  unfoldable pub find_job : String → Exec (JobQueue Store) JobRecord
  find_job job_id q = elim (Dict.get q.jobs job_id) [
    | none ↦ (err (key_error job_id), q)
    | some job ↦ (ok job, q)
  ]

  -- The sequence that a method allocates on one condition and takes from the table otherwise.
  unfoldable pub allocate_if : Bool → Option ℤ → Exec (JobQueue Store) (Option ℤ)
  allocate_if true current = do s ← allocate_pending_sequence; return (some s)
  allocate_if false current = return current

module _ (sha256 : List ℕ → String) where
  -- The comparison of `_get_idempotent_job_locked`.
  unfoldable pub same_request : Bool → JobRecord → JobRequest → Bool
  same_request compare existing r =
      existing.filename == r.filename
      && existing.mode == r.mode
      && same_source_binding sha256 existing.source r.source
      && same_template_binding existing.template r.template
      && (not compare || same_fields existing.request_parameters r.request_parameters)

module _ (sha256 : List ℕ → String) {Store : Type 0} where
  check_bound : Bool → JobRequest → JobRecord → Exec (JobQueue Store) (Option JobRecord)
  check_bound compare r existing q =
      if same_request sha256 compare existing r
      then (ok (some existing), q)
      else (err (value_error "idempotency_key already bound to different job parameters"), q)

  find_bound : Bool → Bool → JobRequest → Option String → Exec (JobQueue Store) (Option JobRecord)
  unfolding check_bound
  find_bound unpublished compare r none = return none
  find_bound unpublished compare r (some existing_id) = do
    hidden ← gets (λ q. contains q.unpublished_job_ids existing_id)
    raise_if (hidden && not unpublished) (runtime_error "job creation pending")
    existing ← find_job existing_id
    check_bound compare r existing

  -- `_get_idempotent_job_locked`, with its include_unpublished and compare_request_parameters
  unfoldable pub get_idempotent_job_locked :
      Bool → Bool → JobRequest → Exec (JobQueue Store) (Option JobRecord)
  unfolding find_bound
  get_idempotent_job_locked unpublished compare r q =
      find_bound unpublished compare r (Dict.get q.idempotency_index r.idempotency_key) q

  -- `get_idempotent_job`
  unfoldable pub get_idempotent_job : JobRequest → Exec (JobQueue Store) (Option JobRecord)
  get_idempotent_job r = do
    r' ← lift (normalize_job_request r)
    get_idempotent_job_locked false true r'

module _ (P : Persistence) where
  abbrev M : Type 0 → Type 0
  M A = Exec (JobQueue P.Store) A

  -- `_create_job_locked`
  unfoldable pub create_job_locked : Fresh → JobRequest → Bool → Bool → M JobRecord
  create_job_locked fresh r enqueue publish = do
    active ← gets has_active_high_quality_job
    raise_if (r.mode == "high_quality" && active) (runtime_error "high_quality job already active")
    sequence ← allocate_if (enqueue && publish) none
    when publish (persist P (new_job fresh r) sequence none)
    modify (register (new_job fresh r) publish)
    when (enqueue && publish) (append_pending fresh.job_id sequence)
    return (new_job fresh r)

  -- A new job, with the template that `create_template` makes where it is given.
  unfoldable pub make_job :
      Fresh → JobRequest → Option (Result (Option Fields)) → Bool → Bool → M JobRecord
  make_job fresh r none enqueue publish = create_job_locked fresh r enqueue publish
  make_job fresh r (some made) enqueue publish = do
    t ← lift made
    create_job_locked fresh (record r { template = t }) enqueue publish

  unfoldable pub keep_or_make :
      Fresh
      → JobRequest
      → Option (Result (Option Fields))
      → Bool
      → Bool
      → Option JobRecord
      → M (JobRecord × Bool)
  unfolding make_job
  keep_or_make fresh r template enqueue publish (some existing) = return (existing, false)
  keep_or_make fresh r template enqueue publish none = do
    job ← make_job fresh r template enqueue publish
    return (job, true)

  -- What `publish_job` and `enqueue_job` do behind their guards.
  unfoldable pub finish_publish :
      JobRecord → String → Bool → Option ℤ → Option P.Related → M JobRecord
  finish_publish job job_id should_enqueue current related = do
    sequence ← allocate_if should_enqueue current
    persist P job sequence related
    modify (mark_published job_id)
    when should_enqueue (append_pending job_id sequence)
    return job

  -- `publish_job`
  unfoldable pub publish_job : String → Bool → Option P.Related → M JobRecord
  unfolding finish_publish
  publish_job job_id enqueue related = do
    job ← find_job job_id
    was_unpublished ← gets (λ q. contains q.unpublished_job_ids job_id)
    current ← gets (λ q. Dict.get q.pending_sequences job_id)
    waiting ← gets (λ q. contains q.pending_job_ids job_id)
    let should_enqueue = enqueue && not waiting
    choose (should_enqueue && not (is_queued job.status))
        (choose was_unpublished (raise (runtime_error "job is already active")) (return job))
        (finish_publish job job_id should_enqueue current related)

  -- `enqueue_job`
  unfoldable pub enqueue_job : String → M JobRecord
  unfolding finish_publish
  enqueue_job job_id = do
    job ← find_job job_id
    raise_if (not (is_queued job.status)) (runtime_error "job is already active")
    current ← gets (λ q. Dict.get q.pending_sequences job_id)
    waiting ← gets (λ q. contains q.pending_job_ids job_id)
    finish_publish job job_id (not waiting) current none

  unfoldable pub discard_found : String → Option JobRecord → M (Unit {0})
  discard_found job_id none = return tt
  discard_found job_id (some job) = do
    raise_if (not (is_queued job.status)) (runtime_error "job is already active")
    delete_persisted P job_id
    modify (forget_job job job_id)

  -- `discard_queued_job`
  unfoldable pub discard_queued_job : String → M (Unit {0})
  unfolding discard_found
  discard_queued_job job_id q = discard_found job_id (Dict.get q.jobs job_id) q

module _ (sha256 : List ℕ → String) (P : Persistence) where
  -- `get_or_create_job`: the flags are enqueue, publish, include_unpublished and
  -- compare_request_parameters.
  unfoldable pub get_or_create_job :
      Fresh
      → JobRequest
      → Option (Result (Option Fields))
      → Bool
      → Bool
      → Bool
      → Bool
      → Exec (JobQueue P.Store) (JobRecord × Bool)
  unfolding keep_or_make
  get_or_create_job fresh r template enqueue publish unpublished compare = do
    r' ← lift (normalize_job_request r)
    existing ← get_idempotent_job_locked sha256 unpublished compare r'
    keep_or_make P fresh r' template enqueue publish existing

  unfoldable pub keep_or_create :
      Fresh → JobRequest → Bool → Option JobRecord → Exec (JobQueue P.Store) JobRecord
  keep_or_create fresh r enqueue (some existing) = return existing
  keep_or_create fresh r enqueue none = create_job_locked P fresh r enqueue true

  -- `create_job`
  unfoldable pub create_job : Fresh → JobRequest → Bool → Exec (JobQueue P.Store) JobRecord
  unfolding keep_or_create
  create_job fresh r enqueue = do
    r' ← lift (normalize_job_request r)
    existing ← get_idempotent_job_locked sha256 false true r'
    keep_or_create fresh r' enqueue existing
