-- ===== src/Download/Stage.antt =====
-- `download_and_stage` of server/src/update_download.rs: the package is streamed to a `.partial`
-- file, and renamed to its final name after all checks.
use luminos.Prelude.{
  ℕ, ◌+◌, ◌||◌, not, Option, none, some, List, [], ◌∷◌, ◌++◌, Result, ok, err, refuse_if, map_err,
  ltb, ◌==◌, if◌then◌else◌, length,
}
use luminos.Text.{Text, codes, text_eq, u64_modulus}
use luminos.Distribution.Policy.{max_package_bytes}
use luminos.Trust.{verify_detached_signature}
use luminos.Agent.Flow.{StagedPackage}
use luminos.Download.Files.{
  DownloadError, http, http_status, size_mismatch, hash_mismatch, invalid_signature, Disk, Io,
  ◌>>=◌, ◌>>◌, lift, plain_step, cleanup_partial, create_new, write_all, read, rename, join,
}
use luminos.Download.Request.{PackageDownloadRequest, validate_request}
use luminos.Download.Http.{Net, Response, is_success, response_with_redirects, fetch_signature}

-- `total` is checked before the chunk is written.
unfoldable pub check_total : ℕ → ℕ → Result DownloadError (Unit {0})
check_total expected_size total =
    refuse_if
      (not (ltb total u64_modulus) || (ltb expected_size total || ltb max_package_bytes total))
      size_mismatch

-- The `while let Some(chunk)` loop; `hashed` is what the hasher has been given.
unfoldable pub stream_chunks : Disk → Text → ℕ → ℕ → Text → List (Option Text) → Io (ℕ × Text)
stream_chunks disk path expected_size total hashed [] = lift (ok (total, hashed))
stream_chunks disk path expected_size total hashed (none ∷ rest) = lift (err http)
stream_chunks disk path expected_size total hashed (some chunk ∷ rest) = do
  lift (check_total expected_size (total + length chunk))
  write_all disk path chunk
  stream_chunks disk path expected_size (total + length chunk) (hashed ++ chunk) rest

-- Behind the loop: `flush`, `sync_all`, the size test and the digest.
unfoldable pub close_partial : Net → Disk → PackageDownloadRequest → ℕ × Text → Io (ℕ × Text)
close_partial net disk request streamed = do
  plain_step disk
  plain_step disk
  lift (refuse_if (not (streamed.0 == request.expected_size)) size_mismatch)
  lift (ok (streamed.0, net.sha256_hex streamed.1))

-- The body of `download_to_partial` behind the status check.
unfoldable pub stream_to_partial :
    Net → Disk → PackageDownloadRequest → Text → List (Option Text) → Io (ℕ × Text)
stream_to_partial net disk request partial_path chunks = do
  cleanup_partial disk partial_path
  create_new disk partial_path
  streamed ← stream_chunks disk partial_path request.expected_size 0 [] chunks
  close_partial net disk request streamed

abbrev pub checked_status : Response → Result DownloadError (List (Option Text))
checked_status response =
    if is_success response.status then ok response.chunks else err (http_status response.status)

unfoldable pub download_to_partial : Net → Disk → PackageDownloadRequest → Text → Io (ℕ × Text)
download_to_partial net disk request partial_path = do
  response ← lift (response_with_redirects net request.download_url)
  chunks ← lift (checked_status response)
  stream_to_partial net disk request partial_path chunks

-- `Err(error) => { Self::cleanup_partial(…).await; return Err(error); }`
unfoldable pub or_cleanup : {A : Type 0} → Disk → Text → Io A → Io A
or_cleanup disk path m w =
    let (r, w') = m w in
    elim r [ ok a ↦ (ok a, w') | err e ↦ (err e, (cleanup_partial disk path w').1) ]

-- The steps behind the streamed download: digest, read-back, size, signature, rename.
unfoldable pub finish_stage :
    Net → Disk → PackageDownloadRequest → Text → Text → Text → ℕ × Text → Io (Unit {0})
finish_stage net disk request partial_path final_path signature actual = do
  or_cleanup disk partial_path
      (lift (refuse_if (not (text_eq actual.1 request.expected_sha256)) hash_mismatch))
  package_bytes ← or_cleanup disk partial_path (read disk partial_path)
  or_cleanup disk partial_path
      (lift (refuse_if (not (length package_bytes == actual.0)) size_mismatch))
  or_cleanup disk partial_path (
      lift (
        map_err (λ e. invalid_signature)
          (verify_detached_signature net.ed25519 package_bytes signature)))
  or_cleanup disk partial_path (rename disk partial_path final_path)

abbrev pub final_path : PackageDownloadRequest → Text
final_path request = join request.staging_directory request.filename

abbrev pub partial_path : PackageDownloadRequest → Text
partial_path request = join request.staging_directory (request.filename ++ codes ".partial")

unfoldable pub download_and_stage : Net → Disk → PackageDownloadRequest → Io StagedPackage
download_and_stage net disk request = do
  lift (validate_request net.parse_url request)
  plain_step disk
  cleanup_partial disk (partial_path request)
  signature ←
      or_cleanup disk (partial_path request) (lift (fetch_signature net request.signature_url))
  actual ←
      or_cleanup disk (partial_path request)
        (download_to_partial net disk request (partial_path request))
  finish_stage net disk request (partial_path request) (final_path request) signature actual
  lift (ok (record { path = final_path request; size = actual.0; sha256 = actual.1 }))
