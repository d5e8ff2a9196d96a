-- ===== src/Artifacts/Tests.antt =====
-- Runs of the artifact files (services/api/artifact_store.py, services/api/job_queue.py), with
-- stand-ins for SHA-256.
use veri_doc.Prelude.{ℕ, String, ◌≡◌, refl, true, false, List, [], ◌∷◌, arith, ap, ◌==◌}
use mathlib.Core.Bool.{false≢true}
use veri_doc.Prelude.Dict
use veri_doc.Prelude.Lists.{any}
use veri_doc.Jobs.Record.{ok, err, value_error}
use veri_doc.Jobs.Exec.{◌>>=◌, return, when}
use veri_doc.Artifacts.Store.{
  missing, folder, symlink, regular, Disk, is_digest, ensure_root, ensure_folder, locate,
  read_verified, write_new, keep_old, save, read, delete,
}
use veri_doc.Artifacts.References.{
  Archive, Upload, names_digest, is_referenced, cleanup_unreferenced_artifacts, save_artifacts,
  dropped, store_rows, persist_files, delete_files,
}
use veri_doc.Artifacts.RoundTrip.{read-save}
use veri_doc.Artifacts.Kept.{
  Call, persist, delete_persisted, run_call, run_calls, IsComplete, run_calls-IsComplete,
}

-- Opening this opens the store.
runs : Unit {0}
unfolding Dict.get Dict.put Dict.remove any ◌>>=◌ return when is_digest ensure_root ensure_folder
    locate read_verified write_new keep_old save read delete names_digest is_referenced
    cleanup_unreferenced_artifacts save_artifacts dropped store_rows persist_files delete_files
    run_call run_calls
runs = tt

abbrev first_digest : String
first_digest = "aaaaaaaaaaaaaaaaaaaaaaaaaaaaaaaaaaaaaaaaaaaaaaaaaaaaaaaaaaaaaaaa"

abbrev second_digest : String
second_digest = "bbbbbbbbbbbbbbbbbbbbbbbbbbbbbbbbbbbbbbbbbbbbbbbbbbbbbbbbbbbbbbbb"

abbrev stand_in : List ℕ → String
stand_in [] = first_digest
stand_in (_ ∷ _) = second_digest

single : (c : List ℕ) → stand_in c ≡ stand_in [] → c ≡ []
single [] e = refl
single (x ∷ c) e = absurd (false≢true (ap (λ s. s == first_digest) e))

abbrev fresh_disk : Disk
fresh_disk = record { root = missing; folders = []; files = [] }

read-save_example : (read stand_in first_digest 0 (save stand_in true [] fresh_disk).1).0 ≡ ok []
unfolding runs
read-save_example = read-save stand_in true [] fresh_disk _ single refl

linked_folder :
    (save stand_in true [] (record { root = folder; folders = ("aa", symlink) ∷ []; files = [] })).0
    ≡ err (value_error "artifact content directory is invalid")
unfolding runs
linked_folder = refl

abbrev upload : List ℕ → Upload
upload content = record { artifact_id = "report"; content = content; writes = true }

abbrev fresh_archive : Archive
fresh_archive = record { disk = fresh_disk; references = [] }

-- Two jobs share a file, one of them goes, and the other's artifact changes.
abbrev calls : List Call
calls =
    persist true "job-1" (upload [] ∷ [])
    ∷ persist true "job-2" (upload [] ∷ [])
    ∷ delete_persisted true "job-1"
    ∷ persist false "job-2" (upload (1 ∷ []) ∷ [])
    ∷ []

shared_file : (run_calls stand_in calls fresh_archive).disk.files ≡ (first_digest, regular []) ∷ []
unfolding runs
shared_file = refl

nothing_stored : IsComplete stand_in fresh_archive
unfolding Dict.get
nothing_stored job_id rows found = ground arith

run_calls-IsComplete_example : IsComplete stand_in (run_calls stand_in calls fresh_archive)
run_calls-IsComplete_example = run_calls-IsComplete stand_in calls fresh_archive nothing_stored
