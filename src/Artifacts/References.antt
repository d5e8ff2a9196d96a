-- ===== src/Artifacts/References.antt =====
-- The table job_queue_artifacts and the artifact files behind it: the file side of `_persist`,
-- `_delete_persisted` and `_cleanup_unreferenced_artifacts` of services/api/job_queue.py. Whether the
-- transaction commits is an argument, as is whether the write of a file succeeds. The set of a
-- job's former digests is listed in the order of its rows.
use veri_doc.Prelude.{
  ℕ, String, Bool, true, false, not, List, [], ◌∷◌, Option, none, some, ◌==◌, if◌then◌else◌,
}
use veri_doc.Prelude.Dict
use veri_doc.Prelude.Dict.{Dict, values}
use veri_doc.Prelude.Lists.{any}
use veri_doc.Jobs.Record.{Error, Result, ok, err, external_error}
use veri_doc.Jobs.Exec.{Exec, return, when, ◌>>◌}
use veri_doc.Artifacts.Store.{Disk, ArtifactFileRecord, save, delete}

-- A row of job_queue_artifacts.
pub record Reference : Type 0 where
  pub artifact_id : String
  pub content_sha256 : String
  pub size_bytes : ℕ

-- The rows of each job.
abbrev pub References : Type 0
References = Dict (List Reference)

pub record Archive : Type 0 where
  pub disk : Disk
  pub references : References

-- An artifact that a job's record holds, and whether the write of its file succeeds.
pub record Upload : Type 0 where
  pub artifact_id : String
  pub content : List ℕ
  pub writes : Bool

unfoldable pub names_digest : String → List Reference → Bool
names_digest digest rows = any (λ r. r.content_sha256 == digest) rows

-- SELECT 1 FROM job_queue_artifacts WHERE content_sha256 = ?
unfoldable pub is_referenced : References → String → Bool
is_referenced references digest = any (names_digest digest) (values references)

-- `_cleanup_unreferenced_artifacts`
unfoldable pub cleanup_unreferenced_artifacts : References → List String → Exec Disk (Unit {0})
cleanup_unreferenced_artifacts references [] = return tt
cleanup_unreferenced_artifacts references (digest ∷ digests) = do
  when (not (is_referenced references digest)) (delete digest)
  cleanup_unreferenced_artifacts references digests

-- What the loop that saves the artifacts comes to: its error, and the rows of those it has saved.
pub record Uploaded : Type 0 where
  pub failure : Option Error
  pub rows : List Reference
  pub created : List String
  pub disk : Disk

abbrev pub row_of : String → ArtifactFileRecord → Reference
row_of artifact_id r = record {
  artifact_id = artifact_id;
  content_sha256 = r.content_sha256;
  size_bytes = r.size_bytes;
}

abbrev pub add_created : ArtifactFileRecord → List String → List String
add_created r created = if r.created then r.content_sha256 ∷ created else created

abbrev pub add_upload : String → ArtifactFileRecord → Uploaded → Uploaded
add_upload artifact_id r rest = record {
  failure = rest.failure;
  rows = row_of artifact_id r ∷ rest.rows;
  created = add_created r rest.created;
  disk = rest.disk;
}

module _ (sha256 : List ℕ → String) where
  -- The rest of the loop behind the outcome of one `save`.
  abbrev pub after_save : String → Result ArtifactFileRecord × Disk → (Disk → Uploaded) → Uploaded
  after_save artifact_id (ok r, disk) rest = add_upload artifact_id r (rest disk)
  after_save artifact_id (err e, disk) rest = record {
    failure = some e;
    rows = [];
    created = [];
    disk = disk;
  }

  unfoldable pub save_artifacts : List Upload → Disk → Uploaded
  save_artifacts [] disk = record { failure = none; rows = []; created = []; disk = disk }
  save_artifacts (u ∷ us) disk =
      after_save u.artifact_id (save sha256 u.writes u.content disk) (save_artifacts us)

abbrev pub or_no_rows : Option (List Reference) → List Reference
or_no_rows none = []
or_no_rows (some rows) = rows

abbrev pub digests_of : List Reference → List String
digests_of [] = []
digests_of (r ∷ rows) = r.content_sha256 ∷ digests_of rows

-- The former digests that the new rows do not have.
unfoldable pub dropped : List Reference → List Reference → List String
dropped [] new = []
dropped (r ∷ old) new =
    let rest = dropped old new in
    if names_digest r.content_sha256 new then rest else r.content_sha256 ∷ rest

-- The error behind a cleanup, which may raise another one.
abbrev pub reraise : Error → Result (Unit {0}) → Result (Unit {0})
reraise e (ok _) = err e
reraise e (err e') = err e'

abbrev pub with_disk : References → Result (Unit {0}) × Disk → Result (Unit {0}) × Archive
with_disk references r = (r.0, record { disk = r.1; references = references })

abbrev pub failed_with : Error → References → List String → Disk → Result (Unit {0}) × Archive
failed_with e references created disk =
    let r = cleanup_unreferenced_artifacts references created disk in
    with_disk references (reraise e r.0, r.1)

unfoldable pub store_rows :
    Bool → String → References → Uploaded → Option Error → Result (Unit {0}) × Archive
store_rows commits job_id references u (some e) = failed_with e references u.created u.disk
store_rows false job_id references u none =
    failed_with (external_error "database") references u.created u.disk
store_rows true job_id references u none =
    let new = Dict.put references job_id u.rows in
    with_disk new (
      cleanup_unreferenced_artifacts new (dropped (or_no_rows (Dict.get references job_id)) u.rows)
        u.disk)

module _ (sha256 : List ℕ → String) where
  -- The files of `_persist`
  unfoldable pub persist_files : Bool → String → List Upload → Exec Archive (Unit {0})
  persist_files commits job_id uploads a =
      let u = save_artifacts sha256 uploads a.disk in
      store_rows commits job_id a.references u u.failure

-- The files of `_delete_persisted`. A transaction that fails changes nothing.
unfoldable pub delete_files : Bool → String → Exec Archive (Unit {0})
delete_files false job_id a = (err (external_error "database"), a)
delete_files true job_id a =
    let rows = or_no_rows (Dict.get a.references job_id) in
    let rest = Dict.remove a.references job_id in
    with_disk rest (cleanup_unreferenced_artifacts rest (digests_of rows) a.disk)
