-- ===== src/Jobs/Durable/Restart/Loop.antt =====
-- The loop of `_restore_jobs` (services/api/job_queue.py) over the interrupted jobs, when the
-- database takes every write: which jobs and which rows it leaves.
use veri_doc.Prelude.{
  ℕ, suc, String, ◌≡◌, refl, Bool, true, false, ◌||◌, List, [], ◌∷◌, ◌++◌, Option, none, some,
  arith, eq_iff, ◌==◌, ◌∙◌, Bool-cases, inl, inr,
}
use mathlib.Core.List.{append-nil, append_assoc}
use veri_doc.Prelude.Int.{ℤ}
use veri_doc.Prelude.Dict
use veri_doc.Prelude.Dict.{Dict, get-put, Distinct, Distinct-put}
use veri_doc.Jobs.Record.{JobRecord, is_running, ok}
use veri_doc.Jobs.Exec.{◌>>=◌}
use veri_doc.Jobs.Codec.Job.{encode_job, encode_job-key}
use veri_doc.Jobs.State.{JobQueue, persist, put_job}
use veri_doc.Jobs.Durable.{Row, Database, key_taken, save_row, upsert}
use veri_doc.Jobs.Durable.Restart.{Waiting, Interrupted, recovered, rejoined, requeue_running}

-- The idempotency key of each row leads to it.
abbrev pub OwnsKeys : Dict String → Dict Row → Type 0
OwnsKeys index rows =
    (id : String) (row : Row)
    → Dict.get rows id ≡ some row
    → Dict.get index row.0.idempotency_key ≡ some id

OwnsKeys-tail :
    (index : Dict String) (id : String) (row : Row) (rows : Dict Row)
    → Distinct ((id, row) ∷ rows)
    → OwnsKeys index ((id, row) ∷ rows)
    → OwnsKeys index rows
unfolding Dict.get
OwnsKeys-tail index id row rows d own j row' found = own j row' (ground (arith, eq_iff id j, d.0))

get_head : (k : String) (r : Row) (rs : Dict Row) → Dict.get ((k, r) ∷ rs) k ≡ some r
unfolding Dict.get
get_head k r rs = ground (arith, eq_iff k k)

-- A job whose key leads to its own id meets no other row of that key.
key_free :
    (index : Dict String) (rows : Dict Row) (job : JobRecord)
    → Distinct rows
    → OwnsKeys index rows
    → Dict.get index job.idempotency_key ≡ some job.job_id
    → key_taken rows job ≡ false
unfolding key_taken
key_free index [] job d own mine = refl
key_free index ((id, row) ∷ rows) job d own mine =
    let head : Dict.get index row.0.idempotency_key ≡ some id = own id row (get_head id row rows) in
    ground (
      arith,
      eq_iff id job.job_id,
      eq_iff row.0.idempotency_key job.idempotency_key,
      head,
      key_free index rows job d.1 (OwnsKeys-tail index id row rows d own) mine,
    )

OwnsKeys-put :
    (index : Dict String) (rows : Dict Row) (job : JobRecord) (s : Option ℤ)
    → OwnsKeys index rows
    → Dict.get index job.idempotency_key ≡ some job.job_id
    → OwnsKeys index (Dict.put rows job.job_id (encode_job job, s))
OwnsKeys-put index rows job s own mine id row found = elim (Bool-cases (job.job_id == id)) [
  | inl hit ↦ ground (
    arith,
    get-put rows job.job_id id (encode_job job, s),
    eq_iff job.job_id id,
    encode_job-key job,
  )
  | inr miss ↦ own id row (ground (arith, get-put rows job.job_id id (encode_job job, s)))
]

-- What the loop writes.
unfoldable pub rejoin_all : ℤ → ℕ → List Interrupted → List Waiting
rejoin_all first index [] = []
rejoin_all first index (r ∷ rs) = rejoined first index r ∷ rejoin_all first (suc index) rs

unfoldable pub put_all : (ℕ → String) → ℕ → List Interrupted → Dict JobRecord → Dict JobRecord
put_all clock index [] jobs = jobs
put_all clock index (r ∷ rs) jobs =
    put_all clock (suc index) rs (Dict.put jobs r.job.job_id (recovered r.job (clock index)))

unfoldable pub save_all : (ℕ → String) → ℤ → ℕ → List Interrupted → Dict Row → Dict Row
save_all clock first index [] rows = rows
save_all clock first index (r ∷ rs) rows = save_all clock first (suc index) rs (
    Dict.put rows r.job.job_id
      (encode_job (recovered r.job (clock index)), some (rejoined first index r).sequence))

-- Each interrupted job is in the table under its id, and its key leads to it.
abbrev pub AllKnown : Dict JobRecord → Dict String → List Interrupted → Type 0
AllKnown jobs index [] = Unit
AllKnown jobs index (r ∷ rs) =
    (Dict.get jobs r.job.job_id ≡ some r.job)
    × (is_running r.job.status ≡ true)
    × (Dict.get index r.job.idempotency_key ≡ some r.job.job_id)
    × AllKnown jobs index rs

-- A queue on a database with these rows that takes every write.
abbrev pub calm : JobQueue Database → Dict Row → JobQueue Database
calm q rows = record q { store = record { rows = rows; faults = [] } }

abbrev pub looped :
    (ℕ → String) → ℤ → ℕ → List Interrupted → JobQueue Database → Dict Row → JobQueue Database
looped clock first index rs q rows =
    calm (record q { jobs = put_all clock index rs q.jobs }) (save_all clock first index rs rows)

module _ (clock : ℕ → String) (first : ℤ) (keys : Dict String) where
  save_step :
      (job : JobRecord) (s : Option ℤ) (rows : Dict Row)
      → key_taken rows job ≡ false
      → save_row job s none (record { rows = rows; faults = [] })
        ≡ (none, record { rows = Dict.put rows job.job_id (encode_job job, s); faults = [] })
  unfolding save_row upsert
  save_step job s rows free = rw free refl

  -- No write fails, and the loop comes to its end.
  pub requeue_running-run :
      (index : ℕ) (rs : List Interrupted) (pending : List Waiting) (jobs : Dict JobRecord)
      (q : JobQueue Database) (rows : Dict Row)
      → AllKnown jobs keys rs
      → Distinct rows
      → OwnsKeys keys rows
      → requeue_running clock first index rs pending (calm q rows)
        ≡ (ok (pending ++ rejoin_all first index rs), looped clock first index rs q rows)
  unfolding requeue_running rejoin_all put_all save_all ◌>>=◌ persist put_job
  requeue_running-run index [] pending jobs q rows known d own = rw (append-nil pending) refl
  requeue_running-run index (r ∷ rs) pending jobs q rows known d own =
      let again = recovered r.job (clock index) in
      let s = some (rejoined first index r).sequence in
      let rest =
        requeue_running-run (suc index) rs (pending ++ rejoined first index r ∷ []) jobs
          (record q { jobs = Dict.put q.jobs r.job.job_id again })
          (Dict.put rows r.job.job_id (encode_job again, s)) known.3
          (Distinct-put rows r.job.job_id (encode_job again, s) d)
          (OwnsKeys-put keys rows again s own known.2) in
      rw
        (
          save_step again s rows (key_free keys rows again d own known.2),
          rest,
          append_assoc pending (rejoined first index r ∷ []) (rejoin_all first (suc index) rs),
        )
        refl

-- The job of that id was interrupted.
unfoldable pub interrupts : List Interrupted → String → Bool
interrupts [] id = false
interrupts (r ∷ rs) id = r.job.job_id == id || interrupts rs id

pub put_all-others :
    (clock : ℕ → String) (index : ℕ) (rs : List Interrupted) (jobs : Dict JobRecord) (id : String)
    → interrupts rs id ≡ false
    → Dict.get (put_all clock index rs jobs) id ≡ Dict.get jobs id
unfolding put_all interrupts
put_all-others clock index [] jobs id h = refl
put_all-others clock index (r ∷ rs) jobs id h =
    let again = recovered r.job (clock index) in
    put_all-others clock (suc index) rs (Dict.put jobs r.job.job_id again) id (ground arith)
    ∙ ground (arith, get-put jobs r.job.job_id id again)

-- The interrupted job and what became of it: nothing but its status and its time changed.
abbrev pub IsRecovered : JobRecord → JobRecord → Type 0
IsRecovered old new = (is_running old.status ≡ true) × (new ≡ recovered old new.updated_at)

pub put_all-IsRecovered :
    (clock : ℕ → String) (known : Dict JobRecord) (keys : Dict String) (index : ℕ)
    (rs : List Interrupted) (jobs : Dict JobRecord) (id : String)
    → AllKnown known keys rs
    → interrupts rs id ≡ true
    → (old new : JobRecord) × (Dict.get known id ≡ some old)
      × (Dict.get (put_all clock index rs jobs) id ≡ some new)
      × IsRecovered old new
unfolding put_all interrupts
put_all-IsRecovered clock known keys index [] jobs id all h = ground arith
put_all-IsRecovered clock known keys index (r ∷ rs) jobs id all h =
    let again = recovered r.job (clock index) in
    elim (Bool-cases (interrupts rs id)) [
      | inl later ↦
          put_all-IsRecovered clock known keys (suc index) rs (Dict.put jobs r.job.job_id again) id
            all.3 later
      | inr last ↦
          let here : r.job.job_id ≡ id = ground (arith, eq_iff r.job.job_id id) in
          (
            r.job,
            again,
            rw (← here) all.0,
            put_all-others clock (suc index) rs (Dict.put jobs r.job.job_id again) id last
                ∙ ground (arith, get-put jobs r.job.job_id id again, eq_iff r.job.job_id id),
            (all.1, refl),
          )
    ]
