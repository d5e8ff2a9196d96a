-- ===== src/Artifacts/RoundTrip.antt =====
-- What `ArtifactFileStore.save` of services/api/artifact_store.py has stored, `read` gives back.
use veri_doc.Prelude.{ℕ, String, Bool, List, Option, none, some, ◌≡◌, eq_iff, arith}
use mathlib.Core.Path.{subst}
use veri_doc.Prelude.Lists.{length}
use veri_doc.Jobs.Record.{Result, ok, err}
use veri_doc.Artifacts.Store.{
  Disk, Entry, regular, link, subfolder, ArtifactFileRecord, read_verified, save, read,
}
use veri_doc.Artifacts.Stored.{IsThere, IsThere-verified, IsReadable, IsThere-IsReadable}
use veri_doc.Artifacts.Saved.{Saved, save-Saved}

module _ (sha256 : List ℕ → String) where
  verified_digest :
      (digest : String) (size : ℕ) (o : Option Entry) (c : List ℕ)
      → read_verified sha256 digest size o ≡ ok c
      → sha256 c ≡ digest
  unfolding read_verified
  verified_digest digest size none c e = ground arith
  verified_digest digest size (some (regular x)) c e = ground (arith, eq_iff (sha256 x) digest)
  verified_digest digest size (some (link t)) c e = ground arith
  verified_digest digest size (some subfolder) c e = ground arith

  Saved-IsReadable :
      (content : List ℕ) (d : Disk) (r : ArtifactFileRecord) (o : Result ArtifactFileRecord × Disk)
      → ((c : List ℕ) → sha256 c ≡ sha256 content → c ≡ content)
      → Saved sha256 d content o
      → o.0 ≡ ok r
      → IsReadable sha256 o.1 r.content_sha256 r.size_bytes content
  unfolding Saved
  Saved-IsReadable content d r (err x, d') single s e = ground arith
  Saved-IsReadable content d r (ok r', d') single (kept, (name, size, (c, there))) e =
      let same : r' ≡ r = ground arith in
      let whole : c ≡ content = single c (
        verified_digest (sha256 content) (length content) _ c
          (IsThere-verified sha256 d' (sha256 content) (length content) c there)) in
      let it = subst (λ x. IsThere sha256 d' (sha256 content) (length content) x) whole there in
      rw (← same, name, size)
        (IsThere-IsReadable sha256 d' (sha256 content) (length content) content it)

  -- If no other content has the digest of a content and save returns its record, read with the
  -- digest and the size of the record gives the content.
  pub read-save :
      (writes : Bool) (content : List ℕ) (d : Disk) (r : ArtifactFileRecord)
      → ((c : List ℕ) → sha256 c ≡ sha256 content → c ≡ content)
      → (save sha256 writes content d).0 ≡ ok r
      → (read sha256 r.content_sha256 r.size_bytes (save sha256 writes content d).1).0 ≡ ok content
  read-save writes content d r single e =
      Saved-IsReadable content d r (save sha256 writes content d) single
        (save-Saved sha256 writes content d) e
