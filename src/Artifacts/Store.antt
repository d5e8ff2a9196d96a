-- ===== src/Artifacts/Store.antt =====
-- `ArtifactFileStore` (services/api/artifact_store.py) over the part of the file system that it uses:
-- the root, the folders of two letters, and the file of each digest. `sha256` is an argument. A
-- temporary file has a new name and is gone at the end of its call, so that only its content counts.
use Prim.Native.Char.{code}
use Prim.Native.String.{len, slice}
use veri_doc.Prelude.{
  ℕ, String, Bool, true, false, ◌&&◌, ◌||◌, not, List, Option, none, some, ◌==◌, nat_eq, leb,
  if◌then◌else◌,
}
use veri_doc.Prelude.Dict
use veri_doc.Prelude.Dict.{Dict}
use veri_doc.Prelude.Lists.{length}
use veri_doc.Jobs.Record.{Result, ok, err, value_error, external_error}
use veri_doc.Jobs.Exec.{Exec, return, gets, modify, raise_if, when, choose, ◌>>=◌, ◌>>◌}

-- What stands at the path of a folder; `occupied` is a file.
pub data Node : Type 0 where
  missing folder symlink occupied : Node

-- What stands at the path of a file; a link says whether its target exists.
pub data Entry : Type 0 where
  regular : List ℕ → Entry
  link : Bool → Entry
  subfolder : Entry

pub record Disk : Type 0 where
  pub root : Node
  pub folders : Dict Node
  pub files : Dict Entry

pub record ArtifactFileRecord : Type 0 where
  pub content_sha256 : String
  pub size_bytes : ℕ
  pub created : Bool

abbrev is_hex_digit : ℕ → Bool
is_hex_digit c = leb 48 c && leb c 57 || leb 97 c && leb c 102

all_hex : String → Bool
all_hex String.[] = true
all_hex (String.◌∷◌ c s) = is_hex_digit (code c) && all_hex s

-- _SHA256_HEX.fullmatch
unfoldable pub is_digest : String → Bool
unfolding all_hex
is_digest s = nat_eq (len s) 64 && all_hex s

-- content_sha256[:2]
abbrev pub prefix : String → String
prefix digest = slice digest 0 2

abbrev pub or_missing : Option Node → Node
or_missing none = missing
or_missing (some node) = node

abbrev pub folder_at : Disk → String → Node
folder_at disk name = or_missing (Dict.get disk.folders name)

abbrev pub is_symlink : Node → Bool
is_symlink symlink = true
is_symlink _ = false

abbrev pub is_occupied : Node → Bool
is_occupied occupied = true
is_occupied _ = false

-- `_ensure_root`. A path that is no folder makes mkdir raise.
unfoldable pub ensure_root : Exec Disk (Unit {0})
ensure_root = do
  root ← gets (λ d. d.root)
  raise_if (is_symlink root) (value_error "artifact store root is invalid")
  raise_if (is_occupied root) (external_error "FileExistsError")
  modify (λ d. record d { root = folder })

-- The folder of a digest, made where it is missing.
unfoldable pub ensure_folder : String → Exec Disk (Unit {0})
ensure_folder name = do
  node ← gets (λ d. folder_at d name)
  raise_if (is_symlink node) (value_error "artifact content directory is invalid")
  raise_if (is_occupied node) (external_error "FileExistsError")
  modify (λ d. record d { folders = Dict.put d.folders name folder })

-- `_path`, with its create_parent
unfoldable pub locate : String → Bool → Exec Disk (Unit {0})
locate digest create_parent = do
  raise_if (not (is_digest digest)) (value_error "artifact content hash is invalid")
  when create_parent ensure_root
  when create_parent (ensure_folder (prefix digest))
  node ← gets (λ d. folder_at d (prefix digest))
  raise_if (is_symlink node) (value_error "artifact content directory is invalid")

-- path.exists(), which follows a link
abbrev pub exists : Option Entry → Bool
exists none = false
exists (some (link target)) = target
exists (some _) = true

module _ (sha256 : List ℕ → String) where
  -- `_read_verified`
  unfoldable pub read_verified : String → ℕ → Option Entry → Result (List ℕ)
  read_verified digest size (some (regular content)) =
      if nat_eq (length content) size && sha256 content == digest
      then ok content
      else err (value_error "persisted job artifact integrity check failed")
  read_verified digest size _ = err (value_error "persisted job artifact is missing")

  abbrev pub verified : String → ℕ → Exec Disk (List ℕ)
  verified digest size d = (read_verified digest size (Dict.get d.files digest), d)

  -- The new file: `writes` says whether the temporary file is written and moved.
  unfoldable pub write_new : Bool → List ℕ → Exec Disk ArtifactFileRecord
  write_new writes content = do
    raise_if (not writes) (external_error "OSError")
    modify (λ d. record d { files = Dict.put d.files (sha256 content) (regular content) })
    checked ← verified (sha256 content) (length content)
    return (record { content_sha256 = sha256 content; size_bytes = length content; created = true })

  unfoldable pub keep_old : List ℕ → Exec Disk ArtifactFileRecord
  keep_old content = do
    checked ← verified (sha256 content) (length content)
    return
        (record { content_sha256 = sha256 content; size_bytes = length content; created = false })

  -- `save`
  unfoldable pub save : Bool → List ℕ → Exec Disk ArtifactFileRecord
  save writes content = do
    locate (sha256 content) true
    there ← gets (λ d. exists (Dict.get d.files (sha256 content)))
    choose there (keep_old content) (write_new writes content)

  -- `read`
  unfoldable pub read : String → ℕ → Exec Disk (List ℕ)
  read digest size = do locate digest false; verified digest size

abbrev pub is_subfolder : Option Entry → Bool
is_subfolder (some subfolder) = true
is_subfolder _ = false

-- `delete`. A folder at the path makes unlink raise; other errors of it are not modelled.
unfoldable pub delete : String → Exec Disk (Unit {0})
delete digest = do
  locate digest false
  odd ← gets (λ d. is_subfolder (Dict.get d.files digest))
  raise_if odd (external_error "IsADirectoryError")
  modify (λ d. record d { files = Dict.remove d.files digest })
