-- ===== src/Artifacts/Intact.antt =====
-- The steps of saving and deleting the artifacts of a job (services/api/job_queue.py) keep the files
-- that rows name.
use veri_doc.Prelude.{
  ℕ, String, Bool, true, false, not, List, [], ◌∷◌, Option, none, some, ◌==◌, ◌≡◌, eq_iff, arith,
  Bool-cases, inl, inr,
}
use veri_doc.Prelude.Dict
use veri_doc.Prelude.Dict.{Dict, values, get-put, get-remove, get-any-values}
use veri_doc.Prelude.Lists.{any, length}
use veri_doc.Jobs.Record.{Error, Result, ok, err}
use veri_doc.Jobs.Exec.{Exec, resume, when, return, ◌>>=◌}
use veri_doc.Artifacts.Store.{Disk, ArtifactFileRecord, save, delete}
use veri_doc.Artifacts.Stored.{IsThere}
use veri_doc.Artifacts.Saved.{Keeps, KeepsOthers, delete-KeepsOthers, Saved, save-Saved}
use veri_doc.Artifacts.References.{
  Reference, References, Archive, Upload, Uploaded, names_digest, is_referenced,
  cleanup_unreferenced_artifacts, after_save, save_artifacts, store_rows, persist_files,
  delete_files,
}

bind_state :
    {A B S : Type 0} (P : S → Type 0) (m : Exec S A) (f : A → Exec S B) (s : S)
    → P (m s).1
    → ((a : A) (s' : S) → P s' → P (f a s').1)
    → P ((m >>= f) s).1
unfolding ◌>>=◌
bind_state P m f s now then_rest = outcome P (m s).0 (m s).1 f now then_rest
  where
    outcome :
        {A B S : Type 0} (P : S → Type 0) (r : Result A) (s : S) (f : A → Exec S B)
        → P s
        → ((a : A) (s' : S) → P s' → P (f a s').1)
        → P (resume r f s).1
    outcome P (ok a) s f now then_rest = then_rest a s now
    outcome P (err e) s f now then_rest = now

module _ (sha256 : List ℕ → String) where
  -- Some content can be read as the row says.
  abbrev IsIntact : Disk → Reference → Type 0
  IsIntact d r = (c : List ℕ) × IsThere sha256 d r.content_sha256 r.size_bytes c

  abbrev pub AllIntact : Disk → List Reference → Type 0
  AllIntact d [] = Unit
  AllIntact d (r ∷ rows) = IsIntact d r × AllIntact d rows

  abbrev pub Intact : Disk → References → Type 0
  Intact d references =
      (job_id : String) (rows : List Reference)
      → Dict.get references job_id ≡ some rows
      → AllIntact d rows

  abbrev KeepsReferenced : References → Disk → Disk → Type 0
  KeepsReferenced references d d' =
      (digest : String) (size : ℕ) (content : List ℕ)
      → is_referenced references digest ≡ true
      → IsThere sha256 d digest size content
      → IsThere sha256 d' digest size content

  cleanup_one :
      (references : References) (name : String) (d d' : Disk)
      → KeepsReferenced references d d'
      → KeepsReferenced references d (when (not (is_referenced references name)) (delete name) d').1
  unfolding when KeepsOthers
  cleanup_one references name d d' kept = elim (Bool-cases (is_referenced references name)) [
    | inl named ↦ rw named kept
    | inr free ↦ rw free (λ digest size c named there.
        delete-KeepsOthers sha256 name d' digest size c (ground (arith, eq_iff name digest))
          (kept digest size c named there))
  ]

  cleanup-KeepsReferenced :
      (references : References) (names : List String) (d d' : Disk)
      → KeepsReferenced references d d'
      → KeepsReferenced references d (cleanup_unreferenced_artifacts references names d').1
  unfolding cleanup_unreferenced_artifacts return
  cleanup-KeepsReferenced references [] d d' kept = kept
  cleanup-KeepsReferenced references (name ∷ names) d d' kept =
      bind_state (KeepsReferenced references d)
        (when (not (is_referenced references name)) (delete name))
        (λ _. cleanup_unreferenced_artifacts references names) d'
        (cleanup_one references name d d' kept)
        λ _ s kept'. cleanup-KeepsReferenced references names d s kept'

  row_named :
      (references : References) (job_id : String) (rows : List Reference) (digest : String)
      → Dict.get references job_id ≡ some rows
      → names_digest digest rows ≡ true
      → is_referenced references digest ≡ true
  unfolding is_referenced
  row_named references job_id rows digest found named =
      elim (Bool-cases (any (names_digest digest) (values references))) [
        | inl yes' ↦ yes'
        | inr no' ↦
            let out = get-any-values (names_digest digest) references job_id rows no' found in
            ground arith
      ]

  -- The rows of a job are kept whole when what is referenced is.
  rows_kept :
      (references : References) (job_id : String) (whole : List Reference) (d d' : Disk)
      → Dict.get references job_id ≡ some whole
      → KeepsReferenced references d d'
      → (rows : List Reference)
      → ((x : String) → names_digest x rows ≡ true → names_digest x whole ≡ true)
      → AllIntact d rows
      → AllIntact d' rows
  unfolding names_digest any
  rows_kept references job_id whole d d' found kept [] within all = tt
  rows_kept references job_id whole d d' found kept (r ∷ rows) within ((c, there), all) =
      let own : names_digest r.content_sha256 (r ∷ rows) ≡ true =
        ground (arith, eq_iff r.content_sha256 r.content_sha256) in
      let named =
        row_named references job_id whole r.content_sha256 found (within r.content_sha256 own) in
      (
        (c, kept r.content_sha256 r.size_bytes c named there),
        rows_kept references job_id whole d d' found kept rows (λ x y. within x (ground arith)) all,
      )

  Intact-cleanup :
      (references : References) (names : List String) (d : Disk)
      → Intact d references
      → Intact (cleanup_unreferenced_artifacts references names d).1 references
  Intact-cleanup references names d intact job_id rows found =
      rows_kept references job_id rows d _ found
        (cleanup-KeepsReferenced references names d d (λ digest size c named there. there)) rows
        (λ x y. y) (intact job_id rows found)

  AllIntact-Keeps :
      (d d' : Disk)
      → Keeps sha256 d d'
      → (rows : List Reference) → AllIntact d rows
      → AllIntact d' rows
  AllIntact-Keeps d d' kept [] all = tt
  AllIntact-Keeps d d' kept (r ∷ rows) ((c, there), all) =
      ((c, kept r.content_sha256 r.size_bytes c there), AllIntact-Keeps d d' kept rows all)

  -- The loop keeps what could be read, and what it has saved can be read.
  abbrev IsUploaded : Disk → Uploaded → Type 0
  IsUploaded d u = Keeps sha256 d u.disk × AllIntact u.disk u.rows

  after_save-IsUploaded :
      (artifact_id : String) (content : List ℕ) (d : Disk) (r : Result ArtifactFileRecord × Disk)
      (rest : Disk → Uploaded)
      → Saved sha256 d content r
      → ((d' : Disk) → IsUploaded d' (rest d'))
      → IsUploaded d (after_save sha256 artifact_id r rest)
  unfolding Saved
  after_save-IsUploaded artifact_id content d (err e, d') rest (kept, given) more = (kept, tt)
  after_save-IsUploaded artifact_id content d (ok r, d') rest (kept, (name, size, (c, there)))
        more =
      let (kept', all) = more d' in
      (
        (λ digest n x was. kept' digest n x (kept digest n x was)),
        ((c, rw (name, size) (kept' (sha256 content) (length content) c there)), all),
      )

  save_artifacts-IsUploaded :
      (uploads : List Upload) (d : Disk) → IsUploaded d (save_artifacts sha256 uploads d)
  unfolding save_artifacts
  save_artifacts-IsUploaded [] d = ((λ digest n c was. was), tt)
  save_artifacts-IsUploaded (u ∷ us) d =
      after_save-IsUploaded u.artifact_id u.content d (save sha256 u.writes u.content d)
        (save_artifacts sha256 us) (save-Saved sha256 u.writes u.content d)
        (save_artifacts-IsUploaded us)

  put-Intact :
      (references : References) (job_id : String) (rows : List Reference) (d : Disk)
      → Intact d references
      → AllIntact d rows
      → Intact d (Dict.put references job_id rows)
  put-Intact references job_id rows d intact all other found' e =
      elim (Bool-cases (job_id == other)) [
        | inl hit ↦
            let same : rows ≡ found' = ground (arith, get-put references job_id other rows) in
            rw (← same) all
        | inr miss ↦ intact other found' (ground (arith, get-put references job_id other rows))
      ]

  remove-Intact :
      (references : References) (job_id : String) (d : Disk)
      → Intact d references
      → Intact d (Dict.remove references job_id)
  remove-Intact references job_id d intact other rows e =
      intact other rows (ground (arith, get-remove references job_id other))

  store_rows-Intact :
      (commits : Bool) (job_id : String) (references : References) (u : Uploaded)
      (failure : Option Error)
      → Intact u.disk references
      → AllIntact u.disk u.rows
      → Intact
          (store_rows commits job_id references u failure).1.disk
          (store_rows commits job_id references u failure).1.references
  unfolding store_rows
  store_rows-Intact commits job_id references u (some e) intact all =
      Intact-cleanup references u.created u.disk intact
  store_rows-Intact false job_id references u none intact all =
      Intact-cleanup references u.created u.disk intact
  store_rows-Intact true job_id references u none intact all =
      Intact-cleanup (Dict.put references job_id u.rows) _ u.disk
        (put-Intact references job_id u.rows u.disk intact all)

  pub persist_files-Intact :
      (commits : Bool) (job_id : String) (uploads : List Upload) (a : Archive)
      → Intact a.disk a.references
      → Intact
          (persist_files sha256 commits job_id uploads a).1.disk
          (persist_files sha256 commits job_id uploads a).1.references
  unfolding persist_files
  persist_files-Intact commits job_id uploads a intact =
      let u = save_artifacts sha256 uploads a.disk in
      let (kept, all) = save_artifacts-IsUploaded uploads a.disk in
      store_rows-Intact commits job_id a.references u u.failure
        (λ other rows found. AllIntact-Keeps a.disk u.disk kept rows (intact other rows found)) all

  pub delete_files-Intact :
      (commits : Bool) (job_id : String) (a : Archive)
      → Intact a.disk a.references
      → Intact (delete_files commits job_id a).1.disk (delete_files commits job_id a).1.references
  unfolding delete_files
  delete_files-Intact false job_id a intact = intact
  delete_files-Intact true job_id a intact =
      Intact-cleanup (Dict.remove a.references job_id) _ a.disk
        (remove-Intact a.references job_id a.disk intact)
