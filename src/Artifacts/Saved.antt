-- ===== src/Artifacts/Saved.antt =====
-- What `save` and `delete` of services/api/artifact_store.py do to the files.
use veri_doc.Prelude.{
  ℕ, String, Bool, true, false, List, Option, none, some, ◌==◌, ◌≡◌, refl, eq_iff, arith,
  Bool-cases, inl, inr,
}
use veri_doc.Prelude.Dict
use veri_doc.Prelude.Dict.{Dict, get-put, get-remove}
use veri_doc.Prelude.Lists.{length}
use veri_doc.Jobs.Record.{Error, Result, ok, err}
use veri_doc.Jobs.Exec.{
  resume, return, ◌>>=◌, gets_rule, raise_if_rule, when_rule, choose_rule, modify, bind_assoc,
}
use veri_doc.Artifacts.Store.{
  Entry, regular, link, subfolder, Disk, ArtifactFileRecord, is_digest, prefix, folder_at,
  is_symlink, locate, exists, read_verified, write_new, keep_old, save, delete,
}
use veri_doc.Artifacts.Stored.{IsThere, IsSimilar, locate_rule}

module _ (sha256 : List ℕ → String) where
  unread :
      (o : Option Entry) (digest : String) (size : ℕ) (content : List ℕ)
      → exists o ≡ false
      → read_verified sha256 digest size o ≡ ok content
      → ⊥
  unfolding read_verified
  unread none digest size content gone e = ground arith
  unread (some (regular c)) digest size content gone e = ground arith
  unread (some (link t)) digest size content gone e = ground arith
  unread (some subfolder) digest size content gone e = ground arith

  -- What could be read can be read again.
  abbrev pub Keeps : Disk → Disk → Type 0
  Keeps d d' =
      (digest : String) (size : ℕ) (content : List ℕ)
      → IsThere sha256 d digest size content
      → IsThere sha256 d' digest size content

  IsSimilar-Keeps : (d d' : Disk) → IsSimilar d d' → Keeps d d'
  unfolding IsThere
  IsSimilar-Keeps d d' (files, plain) digest size content (hex, ordinary, intact) =
      (hex, plain (prefix digest) ordinary, rw files intact)

  -- A new file where there was none that could be read.
  put-Keeps :
      (d : Disk) (name : String) (entry : Entry)
      → exists (Dict.get d.files name) ≡ false
      → Keeps d (record d { files = Dict.put d.files name entry })
  unfolding IsThere read_verified
  put-Keeps d name entry gone digest size content (hex, ordinary, intact) =
      elim (Bool-cases (name == digest)) [
        | inl hit ↦
            let same : name ≡ digest = (eq_iff name digest).0 hit in
            absurd (unread (Dict.get d.files digest) digest size content (rw (← same) gone) intact)
        | inr miss ↦ (hex, ordinary, rw (get-put d.files name digest entry, miss) intact)
      ]

  -- A saved content can be read under its digest.
  abbrev pub Gives : List ℕ → Result ArtifactFileRecord × Disk → Type 0
  Gives content (err e, d) = Unit
  Gives content (ok r, d) =
      (r.content_sha256 ≡ sha256 content)
      × (r.size_bytes ≡ length content)
      × ((c : List ℕ) × IsThere sha256 d (sha256 content) (length content) c)

  unfoldable pub Saved : Disk → List ℕ → Result ArtifactFileRecord × Disk → Type 0
  Saved d content r = Keeps d r.1 × Gives content r

  checked_outcome :
      (created : Bool) (content : List ℕ) (d d' : Disk) (r : Result (List ℕ))
      → Keeps d d'
      → is_digest (sha256 content) ≡ true
      → is_symlink (folder_at d' (prefix (sha256 content))) ≡ false
      → read_verified sha256 (sha256 content) (length content) (Dict.get d'.files (sha256 content))
        ≡ r
      → Saved d content (
          resume r
            (λ _. return (record {
              content_sha256 = sha256 content;
              size_bytes = length content;
              created = created;
            }))
            d')
  unfolding return IsThere Saved
  checked_outcome created content d d' (ok c) kept hex plain e =
      (kept, (refl, refl, (c, (hex, plain, e))))
  checked_outcome created content d d' (err x) kept hex plain e = (kept, tt)

  Saved-error :
      (content : List ℕ) (e : Error) (d d' : Disk) → Keeps d d' → Saved d content (err e, d')
  unfolding Saved
  Saved-error content e d d' kept = (kept, tt)

  keep_old-Saved :
      (content : List ℕ) (d d' : Disk)
      → Keeps d d'
      → is_digest (sha256 content) ≡ true
      → is_symlink (folder_at d' (prefix (sha256 content))) ≡ false
      → Saved d content (keep_old sha256 content d')
  unfolding keep_old ◌>>=◌
  keep_old-Saved content d d' kept hex plain =
      checked_outcome false content d d' _ kept hex plain refl

  write_new-Saved :
      (writes : Bool) (content : List ℕ) (d d' : Disk)
      → Keeps d d'
      → is_digest (sha256 content) ≡ true
      → is_symlink (folder_at d' (prefix (sha256 content))) ≡ false
      → exists (Dict.get d'.files (sha256 content)) ≡ false
      → Saved d content (write_new sha256 writes content d')
  unfolding write_new ◌>>=◌
  write_new-Saved true content d d' kept hex plain new =
      let after = record d' { files = Dict.put d'.files (sha256 content) (regular content) } in
      checked_outcome true content d after _
        (λ digest size c there.
          put-Keeps d' (sha256 content) (regular content) new digest size c
            (kept digest size c there))
        hex plain refl
  write_new-Saved false content d d' kept hex plain new = Saved-error content _ d d' kept

  pub save-Saved :
      (writes : Bool) (content : List ℕ) (d : Disk) → Saved d content (save sha256 writes content d)
  unfolding save
  save-Saved writes content d =
      locate_rule (Saved d content) (sha256 content) _ d
        (λ e d' similar. Saved-error content e d d' (IsSimilar-Keeps d d' similar))
        λ d' similar hex plain.
          let kept = IsSimilar-Keeps d d' similar in
          gets_rule (Saved d content) _ _ d' (
            choose_rule (Saved d content) _ _ _ d'
              (λ there. keep_old-Saved content d d' kept hex plain)
              (λ new. write_new-Saved writes content d d' kept hex plain new))

  -- A deletion takes one content alone.
  unfoldable pub KeepsOthers : String → Disk → Disk → Type 0
  KeepsOthers name d d' =
      (digest : String) (size : ℕ) (content : List ℕ)
      → (name == digest) ≡ false
      → IsThere sha256 d digest size content
      → IsThere sha256 d' digest size content

  same-KeepsOthers : (name : String) (d : Disk) → KeepsOthers name d d
  unfolding KeepsOthers
  same-KeepsOthers name d digest size c other there = there

  remove-KeepsOthers :
      (name : String) (d : Disk)
      → KeepsOthers name d (modify (λ x. record x { files = Dict.remove x.files name }) d).1
  unfolding KeepsOthers IsThere modify
  remove-KeepsOthers name d digest size c other (hex, plain, intact) =
      (hex, plain, rw (get-remove d.files name digest, other) intact)

  abbrev KeepsThem : Disk → String → Result (Unit {0}) × Disk → Type 0
  KeepsThem d name r = KeepsOthers name d r.1

  pub delete-KeepsOthers : (name : String) (d : Disk) → KeepsOthers name d (delete name d).1
  unfolding delete locate
  delete-KeepsOthers name d =
      let q = KeepsThem d name in
      let same = same-KeepsOthers name d in
      rw bind_assoc (
        raise_if_rule q _ _ _ d (λ _. same)
          λ hex. rw bind_assoc (
            when_rule q false _ _ d (λ n. ground arith)
              λ _. rw bind_assoc (
                when_rule q false _ _ d (λ n. ground arith)
                  λ _. rw bind_assoc (
                    gets_rule q _ _ d (
                      raise_if_rule q _ _ _ d (λ _. same)
                        λ plain.
                          gets_rule q _ _ d (
                            raise_if_rule q _ _ _ d (λ _. same) λ _. remove-KeepsOthers name d))))))
