-- ===== src/Download/Untouched.antt =====
-- Which files `download_and_stage` of server/src/update_download.rs changes.
use luminos.Prelude.{
  ℕ, ◌+◌, ◌≡◌, ◌≢◌, refl, not, Option, none, some, List, [], ◌∷◌, ◌++◌, ok, err, arith, length,
  refuse_if, map_err, ◌==◌,
}
use luminos.Text.{Text, text_eq, text_eq_iff}
use luminos.Trust.{UpdateTrustError, verify_detached_signature}
use luminos.Agent.Flow.{StagedPackage}
use luminos.Download.Files.{
  DownloadError, hash_mismatch, size_mismatch, invalid_signature, World, Disk, plain_step,
  cleanup_partial, create_new, lift, ◌>>=◌, ◌>>◌, write_all, read, rename,
}
use luminos.Download.Request.{PackageDownloadRequest, validate_request}
use luminos.Download.Http.{Net, response_with_redirects, fetch_signature}
use luminos.Download.Stage.{
  stream_chunks, stream_to_partial, close_partial, checked_status, download_to_partial, or_cleanup,
  finish_stage, final_path, partial_path, download_and_stage,
}
use luminos.Download.Frame.{
  OnlyAt, cleanup_partial-OnlyAt, create_new-OnlyAt, or_cleanup-OnlyAt, after-OnlyAt, lift-OnlyAt,
  plain_step-OnlyAt, FailsOnlyAt, after-FailsOnlyAt, or_cleanup-FailsOnlyAt, rename-FailsOnlyAt,
  always_ok-FailsOnlyAt, read-OnlyAt, checked-OnlyAt,
}

stream_chunks-OnlyAt :
    (disk : Disk) (path : Text) (size total : ℕ) (hashed : Text) (chunks : List (Option Text))
    → OnlyAt path (stream_chunks disk path size total hashed chunks)
unfolding stream_chunks write_all
stream_chunks-OnlyAt disk path size total hashed [] w p ne = refl
stream_chunks-OnlyAt disk path size total hashed (none ∷ rest) w p ne = refl
stream_chunks-OnlyAt disk path size total hashed (some chunk ∷ rest) w p ne = ground (
  arith,
  stream_chunks-OnlyAt disk path size (total + length chunk) (hashed ++ chunk) rest
      (write_all disk path chunk w).1 p,
  text_eq_iff path p,
)

close_partial-OnlyAt :
    (net : Net) (disk : Disk) (request : PackageDownloadRequest) (path : Text) (streamed : ℕ × Text)
    → OnlyAt path (close_partial net disk request streamed)
unfolding close_partial plain_step
close_partial-OnlyAt net disk request path streamed w p ne = ground arith

stream_to_partial-OnlyAt :
    (net : Net) (disk : Disk) (request : PackageDownloadRequest) (path : Text)
    (chunks : List (Option Text))
    → OnlyAt path (stream_to_partial net disk request path chunks)
unfolding stream_to_partial
stream_to_partial-OnlyAt net disk request path chunks =
    after-OnlyAt path (cleanup_partial disk path)
      (λ _.
        create_new disk path
        >> (stream_chunks disk path request.expected_size 0 [] chunks
            >>= close_partial net disk request))
      (cleanup_partial-OnlyAt disk path)
      (λ _.
        after-OnlyAt path (create_new disk path)
          (λ _.
            stream_chunks disk path request.expected_size 0 [] chunks
            >>= close_partial net disk request)
          (create_new-OnlyAt disk path)
          (λ _.
            after-OnlyAt path (stream_chunks disk path request.expected_size 0 [] chunks)
              (close_partial net disk request)
              (stream_chunks-OnlyAt disk path request.expected_size 0 [] chunks)
              (close_partial-OnlyAt net disk request path)))

download_to_partial-OnlyAt :
    (net : Net) (disk : Disk) (request : PackageDownloadRequest) (path : Text)
    → OnlyAt path (download_to_partial net disk request path)
unfolding download_to_partial
download_to_partial-OnlyAt net disk request path =
    after-OnlyAt path (lift (response_with_redirects net request.download_url))
      (λ response. lift (checked_status response) >>= stream_to_partial net disk request path)
      (lift-OnlyAt path (response_with_redirects net request.download_url))
      (λ response.
        after-OnlyAt path (lift (checked_status response)) (stream_to_partial net disk request path)
          (lift-OnlyAt path (checked_status response))
          (stream_to_partial-OnlyAt net disk request path))

finish_stage-FailsOnlyAt :
    (net : Net) (disk : Disk) (request : PackageDownloadRequest) (from to signature : Text)
    (actual : ℕ × Text)
    → FailsOnlyAt from (finish_stage net disk request from to signature actual)
unfolding finish_stage
finish_stage-FailsOnlyAt net disk request from to signature actual =
    let matches = refuse_if (not (text_eq actual.1 request.expected_sha256)) hash_mismatch in
    let sized = λ (content : Text). refuse_if (not (length content == actual.0)) size_mismatch in
    let signed = λ (content : Text).
      map_err (λ (e : UpdateTrustError). invalid_signature)
        (verify_detached_signature net.ed25519 content signature) in
    let last = or_cleanup disk from (rename disk from to) in
    let third = λ (content : Text). or_cleanup disk from (lift (signed content)) >> last in
    let second = λ (content : Text). or_cleanup disk from (lift (sized content)) >> third content in
    let first = or_cleanup disk from (read disk from) >>= second in
    after-FailsOnlyAt from (or_cleanup disk from (lift matches)) (λ _. first)
      (checked-OnlyAt disk from matches)
      (λ _.
        after-FailsOnlyAt from (or_cleanup disk from (read disk from)) second
          (or_cleanup-OnlyAt disk from (read disk from) (read-OnlyAt disk from))
          (λ content.
            after-FailsOnlyAt from (or_cleanup disk from (lift (sized content)))
              (λ _. third content) (checked-OnlyAt disk from (sized content))
              (λ _.
                after-FailsOnlyAt from (or_cleanup disk from (lift (signed content))) (λ _. last)
                  (checked-OnlyAt disk from (signed content))
                  (λ _.
                    or_cleanup-FailsOnlyAt disk from (rename disk from to)
                      (rename-FailsOnlyAt disk from to)))))

abbrev staged_as : PackageDownloadRequest → ℕ × Text → StagedPackage
staged_as request actual = record { path = final_path request; size = actual.0; sha256 = actual.1 }

-- A download that fails, at whichever step and with whichever error of the disk or the network,
-- changes no file but its own `.partial` file: what was staged before under the final name, or
-- under any other name, is still there.
pub download_and_stage_untouched :
    (net : Net) (disk : Disk) (request : PackageDownloadRequest) (w : World) (e : DownloadError)
    (p : Text)
    → (download_and_stage net disk request w).0 ≡ err e
    → p ≢ partial_path request
    → (download_and_stage net disk request w).1.files p ≡ w.files p
unfolding download_and_stage
download_and_stage_untouched net disk request w e p h ne =
    let path = partial_path request in
    let valid = validate_request net.parse_url request in
    let fetched = fetch_signature net request.signature_url in
    let fetch = or_cleanup disk path (lift fetched) in
    let load = or_cleanup disk path (download_to_partial net disk request path) in
    let last = λ (signature : Text) (actual : ℕ × Text).
      finish_stage net disk request path (final_path request) signature actual
      >> lift (ok (staged_as request actual)) in
    let third = λ (signature : Text). load >>= last signature in
    let second = fetch >>= third in
    let first = cleanup_partial disk path >> second in
    after-FailsOnlyAt path (lift valid) (λ _. plain_step disk >> first) (lift-OnlyAt path valid)
      (λ _.
        after-FailsOnlyAt path (plain_step disk) (λ _. first) (plain_step-OnlyAt disk path)
          (λ _.
            after-FailsOnlyAt path (cleanup_partial disk path) (λ _. second)
              (cleanup_partial-OnlyAt disk path)
              (λ _.
                after-FailsOnlyAt path fetch third (checked-OnlyAt disk path fetched) (λ signature.
                  after-FailsOnlyAt path load (last signature)
                    (or_cleanup-OnlyAt disk path (download_to_partial net disk request path)
                      (download_to_partial-OnlyAt net disk request path))
                    (λ actual.
                      always_ok-FailsOnlyAt path
                        (finish_stage net disk request path (final_path request) signature actual)
                        (staged_as request actual)
                        (finish_stage-FailsOnlyAt net disk request path (final_path request)
                          signature actual))))))
      w e p h ne
