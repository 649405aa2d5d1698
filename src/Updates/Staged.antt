-- ===== src/Updates/Staged.antt =====
-- `staged_package_from_signed_manifest` of server/src/handlers/updates.rs: the staged file is read
-- again and compared with the signed manifest.
use luminos.Prelude.{
  ℕ, ◌+◌, Bool, true, false, ◌&&◌, ◌||◌, not, Option, none, some, List, [], ◌∷◌, ◌++◌, reverse,
  Result, ok, err, ◌>>=◌, ◌>>◌, refuse_if, ok_or, ltb, ◌==◌, if◌then◌else◌, length,
}
use luminos.Text.{Text, codes, text_eq, is_empty, split, u64_modulus}
use luminos.Discovery.Types.{ValidatedManifest}
use luminos.Agent.Flow.{StagedPackage}
use luminos.Download.Files.{join}
use luminos.Updates.Server.{FileKind, regular, directory, symlink, other, OpenFile, FileSystem}
use luminos.Updates.Target.{UpdateTarget, is_other_target, update_staging_directory}

-- The ways in which a staged package is refused; the texts of the source are names here.
pub data StagedError : Type 0 where
  target_changed invalid_runtime_directory directory_unavailable not_a_directory : StagedError
  package_unavailable not_a_file unresolved escaped : StagedError
  cannot_open no_metadata wrong_size cannot_read overflow : StagedError
  exceeds_size size_changed wrong_hash : StagedError

abbrev pub is_directory : FileKind → Bool
is_directory directory = true
is_directory regular = false
is_directory symlink = false
is_directory other = false

abbrev pub is_file : FileKind → Bool
is_file regular = true
is_file directory = false
is_file symlink = false
is_file other = false

-- The components of an absolute path: what stands between its separators, without `.`.
abbrev named : List Text → List Text
named [] = []
named (c ∷ rest) = if is_empty c || text_eq c (codes ".") then named rest else c ∷ named rest

abbrev pub components : Text → List Text
components path = named (split b'/' path)

abbrev texts_eq : List Text → List Text → Bool
texts_eq [] [] = true
texts_eq [] (_ ∷ _) = false
texts_eq (_ ∷ _) [] = false
texts_eq (a ∷ s) (b ∷ t) = text_eq a b && texts_eq s t

abbrev parent_is : List Text → List Text → Bool
parent_is [] outer = false
parent_is (leaf ∷ rest) outer = texts_eq (reverse rest) outer

-- `path.parent() == Some(outer)` for absolute paths.
unfoldable pub is_parent : Text → Text → Bool
is_parent outer path = parent_is (reverse (components path)) (components outer)

abbrev pub checked_metadata : ℕ → Option (Bool × ℕ) → Result StagedError (Unit {0})
checked_metadata size none = err no_metadata
checked_metadata size (some (regular_file, len)) =
    refuse_if (not regular_file || not (len == size)) wrong_size

-- The read loop: it ends at an empty read. `hashed` is what the hasher has been given.
unfoldable pub read_staged : ℕ → ℕ → Text → List (Option Text) → Result StagedError (ℕ × Text)
read_staged size total hashed [] = ok (total, hashed)
read_staged size total hashed (none ∷ rest) = err cannot_read
read_staged size total hashed (some [] ∷ rest) = ok (total, hashed)
read_staged size total hashed (some (b ∷ s) ∷ rest) =
    let total' = total + length (b ∷ s) in
    let next = read_staged size total' (hashed ++ (b ∷ s)) rest in
    if not (ltb total' u64_modulus)
    then err overflow
    else if ltb size total'
    then err exceeds_size
    else next

-- From the opened file on.
unfoldable pub read_package :
    (Text → Text) → ValidatedManifest → Text → OpenFile → Result StagedError StagedPackage
read_package sha256_hex manifest path file = do
  checked_metadata manifest.package_size file.metadata
  read ← read_staged manifest.package_size 0 [] file.reads
  refuse_if (not (read.0 == manifest.package_size)) size_changed
  refuse_if (not (text_eq (sha256_hex read.1) manifest.package_sha256)) wrong_hash
  ok (record { path = path; size = read.0; sha256 = sha256_hex read.1 })

abbrev staging_or_refused : Result (Unit {0}) Text → Result StagedError Text
staging_or_refused (ok path) = ok path
staging_or_refused (err e) = err invalid_runtime_directory

unfoldable pub staged_package_from_signed_manifest :
    FileSystem
    → (Text → Text)
    → UpdateTarget
    → ValidatedManifest
    → Text
    → Result StagedError StagedPackage
staged_package_from_signed_manifest fs sha256_hex target manifest runtime_root = do
  refuse_if (is_other_target target manifest) target_changed
  staging ← staging_or_refused (update_staging_directory runtime_root)
  staging_kind ← ok_or directory_unavailable (fs.symlink_metadata staging)
  refuse_if (not (is_directory staging_kind)) not_a_directory
  let path = join staging manifest.package_filename
  kind ← ok_or package_unavailable (fs.symlink_metadata path)
  refuse_if (not (is_file kind)) not_a_file
  canonical_staging ← ok_or unresolved (fs.canonicalize staging)
  canonical_path ← ok_or unresolved (fs.canonicalize path)
  refuse_if (not (is_parent canonical_staging canonical_path)) escaped
  file ← ok_or cannot_open (fs.open_file canonical_path)
  read_package sha256_hex manifest canonical_path file
