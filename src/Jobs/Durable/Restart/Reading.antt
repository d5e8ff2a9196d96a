-- ===== src/Jobs/Durable/Restart/Reading.antt =====
-- What `_restore_jobs` (services/api/job_queue.py) reads of the rows of a queue whose published jobs
-- they are: the jobs, with a list for each tuple.
use veri_doc.Prelude.{String, ◌≡◌, true, false, some}
use veri_doc.Prelude.Int.{ℤ}
use veri_doc.Prelude.Dict
use veri_doc.Prelude.Dict.{Dict, Distinct}
use veri_doc.Prelude.Lists.{contains}
use veri_doc.Jobs.Record.{JobRecord, ok, is_queued}
use veri_doc.Jobs.State.{JobQueue}
use veri_doc.Jobs.Durable.{Row, Database}
use veri_doc.Jobs.Durable.Restart.{Loaded, load_rows}
use veri_doc.Jobs.Durable.Restart.Loop.{OwnsKeys}

abbrev pub IsLoadedOf : Dict ℤ → String → JobRecord → Loaded → Type 0
IsLoadedOf seqs id job row =
    (row.0 ≡ job) × (is_queued job.status ≡ true → row.1 ≡ Dict.get seqs id)

-- `rows` is what is read of `base`, and it is the published jobs of `q`.
pub record Reading (q : JobQueue Database) (base : Dict Row) (rows : Dict Loaded) : Type 0 where
  pub loads : load_rows base ≡ ok rows
  pub stored :
      (id : String) (job : JobRecord)
      → Dict.get q.jobs id ≡ some job
      → contains q.unpublished_job_ids id ≡ false
      → (row : Loaded) × (Dict.get rows id ≡ some row) × IsLoadedOf q.pending_sequences id job row
  pub known :
      (id : String) (row : Loaded)
      → Dict.get rows id ≡ some row
      → (Dict.get q.jobs id ≡ some row.0) × (contains q.unpublished_job_ids id ≡ false)
  pub distinct : Distinct rows
  pub base_distinct : Distinct base
  pub owns : OwnsKeys q.idempotency_index base
