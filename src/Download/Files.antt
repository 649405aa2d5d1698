-- ===== src/Download/Files.antt =====
-- The files that server/src/update_download.rs works on, and tokio's operations on them. Each
-- operation can fail; a write that fails may have written the first bytes of its chunk.
use luminos.Prelude.{
  ℕ, zero, suc, ◌+◌, Bool, Option, none, some, [], ◌∷◌, ◌++◌, Result, ok, err, if◌then◌else◌,
}
use luminos.Text.{Text, codes, text_eq, is_empty, starts_with, ends_with}

pub data DownloadError : Type 0 where
  invalid_request : DownloadError
  http : DownloadError
  http_status : ℕ → DownloadError
  invalid_redirect : DownloadError
  too_many_redirects : DownloadError
  io : DownloadError
  size_mismatch : DownloadError
  hash_mismatch : DownloadError
  invalid_signature : DownloadError
  signature_too_large : DownloadError

abbrev pub Files : Type 0
Files = Text → Option Text

-- `steps` counts the operations, so that each can fail or pass on its own.
pub record World : Type 0 where
  pub files : Files
  pub steps : ℕ

-- Which operations fail, and how many bytes a failing write has written.
pub record Disk : Type 0 where
  pub fails : ℕ → Bool
  pub torn : ℕ → ℕ

abbrev pub Io : Type 0 → Type 0
Io A = World → Result DownloadError A × World

abbrev pub after :
    {A B : Type 0} → Result DownloadError A × World → (A → Io B) → Result DownloadError B × World
after (ok a, w) f = f a w
after (err e, w) f = (err e, w)

infixl 5 ◌>>=◌ ◌>>◌
abbrev pub ◌>>=◌ : {A B : Type 0} → Io A → (A → Io B) → Io B
◌>>=◌ m f w = after (m w) f

abbrev pub ◌>>◌ : {A B : Type 0} → Io A → Io B → Io B
◌>>◌ m k = m >>= λ _. k

abbrev pub lift : {A : Type 0} → Result DownloadError A → Io A
lift r w = (r, w)

abbrev pub write_at : Text → Option Text → Files → Files
write_at path content files = λ p. if text_eq path p then content else files p

abbrev take : ℕ → Text → Text
take zero s = []
take (suc n) [] = []
take (suc n) (b ∷ s) = b ∷ take n s

abbrev next : World → Files → World
next w files = record { files = files; steps = w.steps + 1 }

-- An operation that changes no file that is modelled: `create_dir_all`, `flush`, `sync_all`.
unfoldable pub plain_step : Disk → Io (Unit {0})
plain_step disk w = (if disk.fails w.steps then err io else ok tt, next w w.files)

-- `cleanup_partial`: every error of `remove_file` is ignored.
unfoldable pub cleanup_partial : Disk → Text → Io (Unit {0})
cleanup_partial disk path w =
    (ok tt, next w (if disk.fails w.steps then w.files else write_at path none w.files))

abbrev created : Text → Option Text → World → Result DownloadError (Unit {0}) × World
created path none w = (ok tt, next w (write_at path (some []) w.files))
created path (some content) w = (err io, next w w.files)

-- `OpenOptions::new().write(true).create_new(true).open(path)`
unfoldable pub create_new : Disk → Text → Io (Unit {0})
create_new disk path w =
    if disk.fails w.steps then (err io, next w w.files) else created path (w.files path) w

abbrev appended : Option Text → Text → Option Text
appended none chunk = none
appended (some content) chunk = some (content ++ chunk)

-- `write_all` at the end of an open file.
unfoldable pub write_all : Disk → Text → Text → Io (Unit {0})
write_all disk path chunk w =
    if disk.fails w.steps
    then (
      err io,
      next w (write_at path (appended (w.files path) (take (disk.torn w.steps) chunk)) w.files),
    )
    else (ok tt, next w (write_at path (appended (w.files path) chunk) w.files))

abbrev read_result : Option Text → Result DownloadError Text
read_result none = err io
read_result (some content) = ok content

unfoldable pub read : Disk → Text → Io Text
read disk path w =
    (if disk.fails w.steps then err io else read_result (w.files path), next w w.files)

abbrev renamed : Text → Text → Option Text → World → Result DownloadError (Unit {0}) × World
renamed from to none w = (err io, next w w.files)
renamed from to (some content) w =
    (ok tt, next w (write_at from none (write_at to (some content) w.files)))

-- `fs::rename` replaces the target in one step, or fails and changes nothing.
unfoldable pub rename : Disk → Text → Text → Io (Unit {0})
rename disk from to w =
    if disk.fails w.steps then (err io, next w w.files) else renamed from to (w.files from) w

-- `Path::join` on Unix.
unfoldable pub join : Text → Text → Text
join directory name =
    if starts_with name (codes "/")
    then name
    else if is_empty directory
    then name
    else if ends_with directory (codes "/")
    then directory ++ name
    else directory ++ codes "/" ++ name
