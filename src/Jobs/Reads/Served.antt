-- ===== src/Jobs/Reads/Served.antt =====
-- What the job queue (services/api/job_queue.py) hands out: artifacts, and jobs that are waited for.
use veri_doc.Prelude.{
  ℕ, String, ◌≡◌, refl, Bool, true, false, ◌||◌, not, List, [], ◌∷◌, ◌++◌, Option, none, some, ◌==◌,
  arith, Bool-cases, Option-cases, inl, inr,
}
use veri_doc.Prelude.Dict
use veri_doc.Prelude.Dict.{values}
use veri_doc.Prelude.Lists.{contains}
use veri_doc.Py.Value.{
  Value, Fields, Items, null, bool, int, float, str, bytes, list, tuple, dict, artifact, nil, cons,
  get, py_eq,
}
use veri_doc.Py.Text.{is_blank}
use veri_doc.Jobs.Record.{JobRecord, Result, ok, err, succeeded, is_succeeded}
use veri_doc.Jobs.State.{JobQueue}
use veri_doc.Jobs.Reads.{
  artifacts_named, artifacts_in, result_artifacts, tag, matches, verify_artifact, check_artifact,
  get_artifact, wait_round, wait_until_published, is_unpublished,
}

-- A published, succeeded job with an artifact of the id.
abbrev pub Serves : List String → String → JobRecord × Fields → Type 0
Serves hidden artifact_id (job, fs) =
    (contains hidden job.job_id ≡ false)
    × (job.status ≡ succeeded)
    × (py_eq (get fs "artifact_id") (str artifact_id) ≡ true)

abbrev Named : String → List Fields → Type 0
Named artifact_id [] = Unit
Named artifact_id (fs ∷ rest) =
    (py_eq (get fs "artifact_id") (str artifact_id) ≡ true) × Named artifact_id rest

abbrev AllServe : List String → String → List (JobRecord × Fields) → Type 0
AllServe hidden artifact_id [] = Unit
AllServe hidden artifact_id (p ∷ ps) = Serves hidden artifact_id p × AllServe hidden artifact_id ps

artifacts_named-Named :
    (artifact_id : String) (xs : Items) → Named artifact_id (artifacts_named artifact_id xs)
unfolding artifacts_named
artifacts_named-Named artifact_id nil = tt
artifacts_named-Named artifact_id (cons (dict fs) xs) =
    let rest = artifacts_named-Named artifact_id xs in
    elim (Bool-cases (py_eq (get fs "artifact_id") (str artifact_id))) [
      | inl hit ↦ rw hit (hit, rest)
      | inr miss ↦ rw miss rest
    ]
artifacts_named-Named artifact_id (cons null xs) = artifacts_named-Named artifact_id xs
artifacts_named-Named artifact_id (cons (bool _) xs) = artifacts_named-Named artifact_id xs
artifacts_named-Named artifact_id (cons (int _) xs) = artifacts_named-Named artifact_id xs
artifacts_named-Named artifact_id (cons (float _) xs) = artifacts_named-Named artifact_id xs
artifacts_named-Named artifact_id (cons (str _) xs) = artifacts_named-Named artifact_id xs
artifacts_named-Named artifact_id (cons (bytes _) xs) = artifacts_named-Named artifact_id xs
artifacts_named-Named artifact_id (cons (list _) xs) = artifacts_named-Named artifact_id xs
artifacts_named-Named artifact_id (cons (tuple _) xs) = artifacts_named-Named artifact_id xs
artifacts_named-Named artifact_id (cons (artifact _) xs) = artifacts_named-Named artifact_id xs

artifacts_in-Named :
    (artifact_id : String) (v : Value) → Named artifact_id (artifacts_in artifact_id v)
unfolding artifacts_in
artifacts_in-Named artifact_id (list xs) = artifacts_named-Named artifact_id xs
artifacts_in-Named artifact_id null = tt
artifacts_in-Named artifact_id (bool _) = tt
artifacts_in-Named artifact_id (int _) = tt
artifacts_in-Named artifact_id (float _) = tt
artifacts_in-Named artifact_id (str _) = tt
artifacts_in-Named artifact_id (bytes _) = tt
artifacts_in-Named artifact_id (tuple _) = tt
artifacts_in-Named artifact_id (dict _) = tt
artifacts_in-Named artifact_id (artifact _) = tt

result_artifacts-Named :
    (artifact_id : String) (result : Option Fields)
    → Named artifact_id (result_artifacts artifact_id result)
unfolding result_artifacts
result_artifacts-Named artifact_id none = tt
result_artifacts-Named artifact_id (some result) =
    artifacts_in-Named artifact_id (get result "artifacts")

tag-AllServe :
    (hidden : List String) (artifact_id : String) (job : JobRecord) (found : List Fields)
    → contains hidden job.job_id ≡ false
    → job.status ≡ succeeded
    → Named artifact_id found
    → AllServe hidden artifact_id (tag job found)
unfolding tag
tag-AllServe hidden artifact_id job [] public done named = tt
tag-AllServe hidden artifact_id job (fs ∷ rest) public done named =
    ((public, done, named.0), tag-AllServe hidden artifact_id job rest public done named.1)

append-AllServe :
    (hidden : List String) (artifact_id : String) (ps qs : List (JobRecord × Fields))
    → AllServe hidden artifact_id ps
    → AllServe hidden artifact_id qs
    → AllServe hidden artifact_id (ps ++ qs)
append-AllServe hidden artifact_id [] qs h k = k
append-AllServe hidden artifact_id (p ∷ ps) qs h k =
    (h.0, append-AllServe hidden artifact_id ps qs h.1 k)

matches-AllServe :
    (hidden : List String) (artifact_id : String) (jobs : List JobRecord)
    → AllServe hidden artifact_id (matches hidden artifact_id jobs)
unfolding matches
matches-AllServe hidden artifact_id [] = tt
matches-AllServe hidden artifact_id (job ∷ jobs) =
    let rest = matches-AllServe hidden artifact_id jobs in
    elim (Bool-cases (contains hidden job.job_id || not (is_succeeded job.status))) [
      | inl skipped ↦ rw skipped rest
      | inr taken ↦ rw taken (
          append-AllServe hidden artifact_id _ _
            (tag-AllServe hidden artifact_id job _ (ground arith) (ground arith)
              (result_artifacts-Named artifact_id job.result))
            rest)
    ]

module _ (sha256 : List ℕ → String) where
  -- The artifact's content is a byte string of the digest that its "sha256" names.
  abbrev pub IsIntact : Fields → Type 0
  IsIntact fs =
      (content : List ℕ) × (expected : String) × (get fs "content" ≡ bytes content)
      × (get fs "sha256" ≡ str expected)
      × ((sha256 content == expected) ≡ true)

  verify-IsIntact :
      (fs : Fields) (c e : Value) (got : Fields)
      → get fs "content" ≡ c
      → get fs "sha256" ≡ e
      → verify_artifact sha256 fs c e ≡ ok got
      → (fs ≡ got) × IsIntact fs
  unfolding verify_artifact
  verify-IsIntact fs (bytes content) (str expected) got c e h =
      elim (Bool-cases (sha256 content == expected)) [
        | inl same ↦ (ground arith, (content, expected, c, e, same))
        | inr other ↦ ground arith
      ]
  verify-IsIntact fs c e got c' e' h = ground arith

module _ (sha256 : List ℕ → String) (validate : JobRecord → Result (Unit {0})) {Store : Type 0}
    (artifact_id : String) (q : JobQueue Store) where
  -- The artifact comes from the one match among the published jobs that have succeeded, that the
  -- caller's check accepts.
  abbrev pub Delivered : Fields → Type 0
  Delivered fs =
      (job : JobRecord) × (matches q.unpublished_job_ids artifact_id (values q.jobs)
        ≡ (job, fs) ∷ [])
      × Serves q.unpublished_job_ids artifact_id (job, fs)
      × (validate job ≡ ok tt)
      × IsIntact sha256 fs

  accepted :
      (job : JobRecord) (fs got : Fields) (r : Result (Unit {0}))
      → validate job ≡ r
      → matches q.unpublished_job_ids artifact_id (values q.jobs) ≡ (job, fs) ∷ []
      → Serves q.unpublished_job_ids artifact_id (job, fs)
      → check_artifact sha256 validate ((job, fs) ∷ []) ≡ ok got
      → Delivered got
  unfolding check_artifact
  accepted job fs got (ok tt) valid e served c =
      let r = verify-IsIntact sha256 fs _ _ got refl refl (ground arith) in
      rw (← r.0) (job, e, served, valid, r.1)
  accepted job fs got (err x) valid e served c = ground arith

  checked :
      (found : List (JobRecord × Fields)) (fs : Fields)
      → AllServe q.unpublished_job_ids artifact_id found
      → matches q.unpublished_job_ids artifact_id (values q.jobs) ≡ found
      → check_artifact sha256 validate found ≡ ok fs
      → Delivered fs
  unfolding check_artifact
  checked [] fs h e c = cc
  checked (p ∷ p' ∷ ps) fs h e c = cc
  checked ((job, fs') ∷ []) fs h e c = accepted job fs' fs _ refl e h.0 c

  -- An artifact that get_artifact returns is the only match of its id among the published jobs
  -- that have succeeded, its job passes the caller's check, and its content is a byte string of
  -- the digest that its record names.
  pub get_artifact-Delivered :
      (fs : Fields) → (get_artifact sha256 validate artifact_id q).0 ≡ ok fs → Delivered fs
  unfolding get_artifact
  get_artifact-Delivered fs h = elim (Bool-cases (is_blank artifact_id)) [
    | inl blank ↦ ground arith
    | inr given ↦
        checked _ fs (matches-AllServe q.unpublished_job_ids artifact_id (values q.jobs)) refl
          (ground arith)
  ]

-- The queue as one of the wake-ups finds it.
pub data Wakes {Store : Type 0} (q : JobQueue Store) : List (JobQueue Store × Bool) → Type 0 where
  now : {late : Bool} {rest : List (JobQueue Store × Bool)} → Wakes q ((q, late) ∷ rest)
  later :
      {p : JobQueue Store × Bool} {rest : List (JobQueue Store × Bool)}
      → Wakes q rest
      → Wakes q (p ∷ rest)

answered :
    (hidden : Bool) (o : Option JobRecord) (late : Bool) (job : JobRecord)
    → wait_round hidden o late ≡ some (ok (some job))
    → (o ≡ some job) × (hidden ≡ false)
unfolding wait_round
answered hidden none late job h = ground arith
answered false (some a) late job h = ground arith
answered true (some a) true job h = ground arith
answered true (some a) false job h = ground arith

-- A job that wait_until_published returns stood in the queue, published, at one of the wake-ups.
pub wait_until_published-Wakes :
    {Store : Type 0} (job_id : String) (schedule : List (JobQueue Store × Bool)) (job : JobRecord)
    → wait_until_published job_id schedule ≡ some (ok (some job))
    → (q : JobQueue Store) × Wakes q schedule
      × (Dict.get q.jobs job_id ≡ some job)
      × (is_unpublished job_id q ≡ false)
unfolding wait_until_published
wait_until_published-Wakes job_id [] job h = cc
wait_until_published-Wakes job_id ((q, late) ∷ rest) job h =
    elim (Option-cases (wait_round (is_unpublished job_id q) (Dict.get q.jobs job_id) late)) [
      | inl waits ↦
          let r = wait_until_published-Wakes job_id rest job (ground arith) in
          (r.0, later r.1, r.2, r.3)
      | inr (answer, e) ↦
          let a =
            answered (is_unpublished job_id q) (Dict.get q.jobs job_id) late job (ground arith) in
          (q, now, a.0, a.1)
    ]
