-- ===== src/Jobs/Durable.antt =====
-- The database of a durable `JobQueue` (services/api/job_queue.py), row by row, and the restart from
-- it. A row holds the job as Codec writes it. What a call meets from outside is a list of
-- faults: an exception before the transaction commits, which rolls it back, or one after it, in
-- the removal of artifact files that no row refers to any more.
pub mod Matched
pub mod Writes
pub mod Calls
pub mod Births
pub mod System
pub mod Faults
pub mod Restart
mod Tests
use veri_doc.Prelude.{
  ℕ, suc, ◌+◌, String, Bool, true, false, ◌&&◌, ◌||◌, not, List, [], ◌∷◌, Option, none, some, ◌==◌,
  if◌then◌else◌, ltb, nat_eq,
}
use veri_doc.Prelude.Int.{ℤ, pos, ◌+ℤ◌, ◌-ℤ◌, ltb_ℤ, eqb_ℤ}
use veri_doc.Prelude.Dict
use veri_doc.Prelude.Dict.{Dict}
use veri_doc.Jobs.Record.{
  JobRecord, JobStatus, queued, is_queued, is_running, Error, Result, ok, err, external_error,
}
use veri_doc.Jobs.Codec.Job.{PersistedJob, encode_job}
use veri_doc.Jobs.State.{Persistence, JobQueue}

pub data Fault : Type 0 where
  no_fault before_commit after_commit : Fault

-- A row of job_queue_records: the encoded job, and its queue_sequence.
abbrev pub Row : Type 0
Row = PersistedJob × Option ℤ

-- The rows in the order of their rowids, which an update keeps; `faults` are those to come.
pub record Database : Type 0 where
  pub rows : Dict Row
  pub faults : List Fault

abbrev pub next_fault : List Fault → Fault
next_fault [] = no_fault
next_fault (f ∷ fs) = f

abbrev pub later_faults : List Fault → List Fault
later_faults [] = []
later_faults (f ∷ fs) = fs

-- Another row has the key: idempotency_key is UNIQUE.
unfoldable pub key_taken : Dict Row → JobRecord → Bool
key_taken [] job = false
key_taken ((id, row) ∷ rows) job =
    not (id == job.job_id) && row.0.idempotency_key == job.idempotency_key || key_taken rows job

abbrev rolled_back : Dict Row → List Fault → Error → Option Error × Database
rolled_back rows faults e = (some e, record { rows = rows; faults = faults })

abbrev committed : Fault → Dict Row → List Fault → Option Error × Database
committed after_commit rows faults =
    (some (external_error "artifact cleanup"), record { rows = rows; faults = faults })
committed _ rows faults = (none, record { rows = rows; faults = faults })

abbrev callback_or :
    Option (Option Error)
    → Option Error × Database
    → List Fault
    → Dict Row
    → Option Error × Database
callback_or (some (some e)) done faults rows = rolled_back rows faults e
callback_or _ done faults rows = done

-- The transaction of `_persist`. The callback comes last, writes to other tables, and is what it
-- raises.
unfoldable pub upsert :
    Fault
    → JobRecord
    → Option ℤ
    → Option (Option Error)
    → Dict Row
    → List Fault
    → Option Error × Database
upsert before_commit job sequence related rows faults =
    rolled_back rows faults (external_error "database")
upsert fault job sequence related rows faults =
    if key_taken rows job
    then rolled_back rows faults (external_error "UNIQUE constraint failed")
    else callback_or related
        (committed fault (Dict.put rows job.job_id (encode_job job, sequence)) faults) faults rows

unfoldable pub save_row :
    JobRecord → Option ℤ → Option (Option Error) → Database → Option Error × Database
save_row job sequence related db =
    upsert (next_fault db.faults) job sequence related db.rows (later_faults db.faults)

unfoldable pub delete_with : Fault → String → Dict Row → List Fault → Option Error × Database
delete_with before_commit job_id rows faults = rolled_back rows faults (external_error "database")
delete_with fault job_id rows faults = committed fault (Dict.remove rows job_id) faults

unfoldable pub delete_row : String → Database → Option Error × Database
delete_row job_id db = delete_with (next_fault db.faults) job_id db.rows (later_faults db.faults)

-- The store of a queue with a database.
abbrev pub durable : Persistence
durable = record { Store = Database; Related = Option Error; save = save_row; delete = delete_row }
