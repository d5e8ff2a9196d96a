-- ===== src/Artifacts/Stored.antt =====
-- What the operations of `ArtifactFileStore` (services/api/artifact_store.py) leave of the contents
-- that can be read.
use veri_doc.Prelude.{
  ℕ, String, true, false, List, ◌==◌, ◌≡◌, refl, sym, ◌∙◌, arith, Bool-cases, inl, inr,
}
use veri_doc.Prelude.Dict
use veri_doc.Prelude.Dict.{Dict, get-put, get-remove}
use veri_doc.Jobs.Record.{Error, Result, ok, err, value_error}
use veri_doc.Jobs.Exec.{
  Exec, ◌>>=◌, ◌>>◌, gets_rule, raise_if_rule, when_rule, modify_rule, bind_assoc, when, gets,
  raise_if,
}
use veri_doc.Artifacts.Store.{
  Node, folder, Disk, is_digest, prefix, folder_at, is_symlink, ensure_root, ensure_folder, locate,
  read_verified, read,
}

module _ (sha256 : List ℕ → String) where
  -- The parts of the disk that a read looks at.
  unfoldable pub IsThere : Disk → String → ℕ → List ℕ → Type 0
  IsThere d digest size content =
      (is_digest digest ≡ true)
      × (is_symlink (folder_at d (prefix digest)) ≡ false)
      × (read_verified sha256 digest size (Dict.get d.files digest) ≡ ok content)

  -- `read` gives that content.
  abbrev pub IsReadable : Disk → String → ℕ → List ℕ → Type 0
  IsReadable d digest size content = (read sha256 digest size d).0 ≡ ok content

  pub IsThere-verified :
      (d : Disk) (digest : String) (size : ℕ) (content : List ℕ)
      → IsThere d digest size content
      → read_verified sha256 digest size (Dict.get d.files digest) ≡ ok content
  unfolding IsThere
  IsThere-verified d digest size content there = there.2

  pub IsReadable-IsThere :
      (d : Disk) (digest : String) (size : ℕ) (content : List ℕ)
      → IsReadable d digest size content
      → IsThere d digest size content
  unfolding read locate ◌>>=◌ IsThere
  IsReadable-IsThere d digest size content e = elim (Bool-cases (is_digest digest)) [
    | inr other ↦
        let fails : err (value_error "artifact content hash is invalid") ≡ ok content =
          sym (rw other refl) ∙ e in
        ground arith
    | inl hex ↦ elim (Bool-cases (is_symlink (folder_at d (prefix digest)))) [
      | inl linked ↦
          let fails : err (value_error "artifact content directory is invalid") ≡ ok content =
            sym (rw (hex, linked) refl) ∙ e in
          ground arith
      | inr plain ↦ (hex, plain, sym (rw (hex, plain) refl) ∙ e)
    ]
  ]

  pub IsThere-IsReadable :
      (d : Disk) (digest : String) (size : ℕ) (content : List ℕ)
      → IsThere d digest size content
      → IsReadable d digest size content
  unfolding read locate ◌>>=◌ IsThere
  IsThere-IsReadable d digest size content (hex, plain, intact) = rw (hex, plain, intact) refl

-- The files are the same, and no folder has become a link.
abbrev pub IsSimilar : Disk → Disk → Type 0
IsSimilar d d' =
    (d'.files ≡ d.files)
    × ((name : String)
        → is_symlink (folder_at d name) ≡ false
        → is_symlink (folder_at d' name) ≡ false)

made-IsSimilar :
    (d : Disk) (root : Node) (name : String)
    → IsSimilar d (record d { root = root; folders = Dict.put d.folders name folder })
made-IsSimilar d root name = (
  refl,
  λ other plain. elim (Bool-cases (name == other)) [
    | inl hit ↦ rw (get-put d.folders name other folder, hit) refl
    | inr miss ↦ rw (get-put d.folders name other folder, miss) plain
  ],
)

module _ {A : Type 0} (Q : Result A × Disk → Type 0) where
  -- The second half of `_path`, with the root in place.
  make_folder :
      (digest : String) (f : Unit {0} → Exec Disk A) (d : Disk)
      → ((e : Error) (d' : Disk) → IsSimilar d d' → Q (err e, d'))
      → is_digest digest ≡ true
      → ((d' : Disk)
          → IsSimilar d d'
          → is_digest digest ≡ true
          → is_symlink (folder_at d' (prefix digest)) ≡ false
          → Q (f tt d'))
      → Q (
          (when true (ensure_folder (prefix digest))
              >> (gets (λ x. folder_at x (prefix digest)) >>= λ node.
                  raise_if (is_symlink node) (value_error "artifact content directory is invalid"))
              >>= f)
            (record d { root = folder }))
  unfolding ensure_folder
  make_folder digest f d fails hex goes =
      let rooted = record d { root = folder } in
      let unchanged : (e : Error) → Q (err e, rooted) =
        λ e. fails e rooted (refl, λ name plain. plain) in
      rw bind_assoc (
        when_rule Q true _ _ rooted
          (λ _. rw bind_assoc (
            gets_rule Q _ _ rooted (
              rw bind_assoc (
                raise_if_rule Q _ _ _ rooted (λ _. unchanged _)
                  λ _. rw bind_assoc (
                    raise_if_rule Q _ _ _ rooted (λ _. unchanged _)
                      λ _. modify_rule Q _ _ _ (
                        rw bind_assoc (
                          gets_rule Q _ _ _ (
                            raise_if_rule Q _ _ _ _
                              (λ _. fails _ _ (made-IsSimilar d folder (prefix digest)))
                              λ plain.
                                goes _ (made-IsSimilar d folder (prefix digest)) hex plain))))))))
          (λ n. ground arith))

  pub locate_rule :
      (digest : String) (f : Unit {0} → Exec Disk A) (d : Disk)
      → ((e : Error) (d' : Disk) → IsSimilar d d' → Q (err e, d'))
      → ((d' : Disk)
          → IsSimilar d d'
          → is_digest digest ≡ true
          → is_symlink (folder_at d' (prefix digest)) ≡ false
          → Q (f tt d'))
      → Q ((locate digest true >>= f) d)
  unfolding locate ensure_root ensure_folder
  locate_rule digest f d fails goes =
      let unchanged : (e : Error) → Q (err e, d) = λ e. fails e d (refl, λ name plain. plain) in
      rw bind_assoc (
        raise_if_rule Q _ _ _ d (λ _. unchanged _)
          λ hex. rw bind_assoc (
            when_rule Q true _ _ d
              (λ _. rw bind_assoc (
                gets_rule Q _ _ d (
                  rw bind_assoc (
                    raise_if_rule Q _ _ _ d (λ _. unchanged _)
                      λ _. rw bind_assoc (
                        raise_if_rule Q _ _ _ d (λ _. unchanged _)
                          λ _.
                            modify_rule Q _ _ _
                              (make_folder digest f d fails (ground arith) goes))))))
              (λ n. ground arith)))
