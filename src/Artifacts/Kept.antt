-- ===== src/Artifacts/Kept.antt =====
-- The artifact files that the rows of the job queue name (services/api/job_queue.py and
-- services/api/artifact_store.py) stay readable.
use veri_doc.Artifacts.Intact.{AllIntact, Intact, persist_files-Intact, delete_files-Intact}
use veri_doc.Prelude.{ℕ, String, Bool, List, [], ◌∷◌, some, ◌≡◌}
use veri_doc.Prelude.Dict
use veri_doc.Prelude.Dict.{Dict, values, get-put, get-remove, get-any-values}
use veri_doc.Artifacts.Store.{Disk}
use veri_doc.Artifacts.Stored.{IsReadable, IsReadable-IsThere, IsThere-IsReadable}
use veri_doc.Artifacts.References.{Reference, Archive, Upload, persist_files, delete_files}

-- The calls that touch the files, with their outcomes.
pub data Call : Type 0 where
  persist : Bool → String → List Upload → Call
  delete_persisted : Bool → String → Call

module _ (sha256 : List ℕ → String) where
  unfoldable pub run_call : Call → Archive → Archive
  run_call (persist commits job_id uploads) a = (persist_files sha256 commits job_id uploads a).1
  run_call (delete_persisted commits job_id) a = (delete_files commits job_id a).1

  unfoldable pub run_calls : List Call → Archive → Archive
  run_calls [] a = a
  run_calls (c ∷ cs) a = run_calls cs (run_call c a)

  run_calls-Intact :
      (cs : List Call) (a : Archive)
      → Intact sha256 a.disk a.references
      → Intact sha256 (run_calls cs a).disk (run_calls cs a).references
  unfolding run_calls run_call
  run_calls-Intact [] a intact = intact
  run_calls-Intact (persist commits job_id uploads ∷ cs) a intact =
      run_calls-Intact cs _ (persist_files-Intact sha256 commits job_id uploads a intact)
  run_calls-Intact (delete_persisted commits job_id ∷ cs) a intact =
      run_calls-Intact cs _ (delete_files-Intact sha256 commits job_id a intact)

  -- Every row's file is read, with some content.
  abbrev pub AllRead : Disk → List Reference → Type 0
  AllRead d [] = Unit
  AllRead d (r ∷ rows) =
      ((c : List ℕ) × IsReadable sha256 d r.content_sha256 r.size_bytes c) × AllRead d rows

  abbrev pub IsComplete : Archive → Type 0
  IsComplete a =
      (job_id : String) (rows : List Reference)
      → Dict.get a.references job_id ≡ some rows
      → AllRead a.disk rows

  AllRead-AllIntact : (d : Disk) (rows : List Reference) → AllRead d rows → AllIntact sha256 d rows
  AllRead-AllIntact d [] all = tt
  AllRead-AllIntact d (r ∷ rows) ((c, reads), all) = (
    (c, IsReadable-IsThere sha256 d r.content_sha256 r.size_bytes c reads),
    AllRead-AllIntact d rows all,
  )

  AllIntact-AllRead : (d : Disk) (rows : List Reference) → AllIntact sha256 d rows → AllRead d rows
  AllIntact-AllRead d [] all = tt
  AllIntact-AllRead d (r ∷ rows) ((c, there), all) = (
    (c, IsThere-IsReadable sha256 d r.content_sha256 r.size_bytes c there),
    AllIntact-AllRead d rows all,
  )

  -- If the file of every artifact row can be read under its digest and size, it can be so after
  -- any saves and deletions of jobs one after another, whichever file writes, transactions and
  -- removals fail in them.
  pub run_calls-IsComplete :
      (cs : List Call) (a : Archive) → IsComplete a → IsComplete (run_calls cs a)
  run_calls-IsComplete cs a complete job_id rows found =
      AllIntact-AllRead (run_calls cs a).disk rows (
        run_calls-Intact cs a (λ other rs e. AllRead-AllIntact a.disk rs (complete other rs e))
          job_id rows found)
