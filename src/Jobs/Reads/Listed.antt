-- ===== src/Jobs/Reads/Listed.antt =====
-- What `list_jobs` of the job queue (services/api/job_queue.py) lists.
use veri_doc.Prelude.{
  String, ◌≡◌, ◌↔◌, refl, Bool, true, false, List, [], ◌∷◌, some, arith, Option-cases, inl, inr,
  if◌then◌else◌,
}
use veri_doc.Prelude.Dict.{values}
use veri_doc.Prelude.Lists.{contains, select}
use veri_doc.Jobs.Record.{JobRecord, JobStatus, queued, running, succeeded, failed, ok}
use veri_doc.Jobs.State.{JobQueue}
use veri_doc.Jobs.Reads.{parse_status, same_status, listed, list_jobs}

-- The jobs of a list.
pub data IsIn (job : JobRecord) : List JobRecord → Type 0 where
  first : {jobs : List JobRecord} → IsIn job (job ∷ jobs)
  after : {other : JobRecord} {jobs : List JobRecord} → IsIn job jobs → IsIn job (other ∷ jobs)

IsIn-head_or :
    (p : JobRecord → Bool) (x job : JobRecord) (jobs rest : List JobRecord) (b : Bool)
    → p x ≡ b
    → (IsIn job rest → IsIn job jobs × (p job ≡ true))
    → IsIn job (if b then x ∷ rest else rest)
    → IsIn job (x ∷ jobs) × (p job ≡ true)
IsIn-head_or p x job jobs rest true e deeper first = (first, e)
IsIn-head_or p x job jobs rest true e deeper (after m) = let r = deeper m in (after r.0, r.1)
IsIn-head_or p x job jobs rest false e deeper m = let r = deeper m in (after r.0, r.1)

IsIn-select :
    (p : JobRecord → Bool) (jobs : List JobRecord) (job : JobRecord)
    → IsIn job (select p jobs)
    → IsIn job jobs × (p job ≡ true)
unfolding select
IsIn-select p [] job m = elim m [ ]
IsIn-select p (x ∷ jobs) job m =
    IsIn-head_or p x job jobs (select p jobs) (p x) refl (IsIn-select p jobs job) m

kept_head :
    (job x : JobRecord) (rest : List JobRecord) (b : Bool)
    → IsIn job rest
    → IsIn job (if b then x ∷ rest else rest)
kept_head job x rest true m = after m
kept_head job x rest false m = m

select-IsIn :
    (p : JobRecord → Bool) (jobs : List JobRecord) (job : JobRecord)
    → IsIn job jobs
    → p job ≡ true
    → IsIn job (select p jobs)
unfolding select
select-IsIn p (x ∷ jobs) job first e = rw e first
select-IsIn p (x ∷ jobs) job (after m) e =
    kept_head job x (select p jobs) (p x) (select-IsIn p jobs job m e)
select-IsIn p [] job m e = elim m [ ]

same_status_iff : (a b : JobStatus) → (same_status a b ≡ true) ↔ (a ≡ b)
unfolding same_status
same_status_iff queued b = ground arith
same_status_iff running b = ground arith
same_status_iff succeeded b = ground arith
same_status_iff failed b = ground arith

module _ {Store : Type 0} (q : JobQueue Store) where
  -- Exactly the published jobs of the status.
  abbrev pub Lists : JobStatus → List JobRecord → Type 0
  Lists status jobs =
      (job : JobRecord)
      → IsIn job jobs
        ↔ IsIn job (values q.jobs)
          × (contains q.unpublished_job_ids job.job_id ≡ false)
          × (job.status ≡ status)

  listed-Lists :
      (status : JobStatus)
      → Lists status (select (listed q.unpublished_job_ids (some status)) (values q.jobs))
  listed-Lists status job = (
    λ m.
        let r = IsIn-select (listed q.unpublished_job_ids (some status)) (values q.jobs) job m in
        (r.0, ground arith, (same_status_iff job.status status).0 (ground arith)),
    λ (m, public, same).
        let equal = (same_status_iff job.status status).1 same in
        select-IsIn (listed q.unpublished_job_ids (some status)) (values q.jobs) job m
          (ground arith),
  )

  -- If list_jobs with a status word returns, the word is one of the four, and the list holds
  -- exactly the published jobs of that status.
  pub list_jobs-Lists :
      (word : String) (jobs : List JobRecord)
      → (list_jobs (some word) q).0 ≡ ok jobs
      → (status : JobStatus) × (parse_status word ≡ some status) × Lists status jobs
  unfolding list_jobs
  list_jobs-Lists word jobs h = elim (Option-cases (parse_status word)) [
    | inl unknown ↦ ground arith
    | inr (status, e) ↦
        let made : select (listed q.unpublished_job_ids (some status)) (values q.jobs) ≡ jobs =
          ground arith in
        (status, e, rw (← made) (listed-Lists status))
  ]
