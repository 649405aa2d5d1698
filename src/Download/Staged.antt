-- ===== src/Download/Staged.antt =====
-- What `download_and_stage` of server/src/update_download.rs leaves on the disk.
use luminos.Prelude.{
  ℕ, ◌+◌, ◌≡◌, ◌≢◌, refl, sym, ◌∙◌, ap, true, Option, none, some, List, [], ◌∷◌, ◌++◌, Result, ok,
  err, arith, length, length-append, Result-cases, Option-cases, inl, inr,
}
use luminos.Text.{Text, text_eq_iff, text_eq_refl}
use luminos.Trust.{verify_detached_signature, verify_detached_signature_iff, pinned_key}
use luminos.Agent.Flow.{StagedPackage}
use luminos.Download.Files.{
  DownloadError, World, Disk, Io, after, plain_step, cleanup_partial, create_new, lift, write_all,
  read, rename,
}
use luminos.Download.Request.{PackageDownloadRequest, validate_request}
use luminos.Download.Http.{Net, response_with_redirects, fetch_signature}
use luminos.Download.Stage.{
  stream_chunks, stream_to_partial, close_partial, checked_status, download_to_partial, or_cleanup,
  finish_stage, final_path, partial_path, download_and_stage,
}
use luminos.Download.Paths.{partial-differs}

-- The file holds what the hasher was given, and the total is its length.
stream_chunks-ok :
    (disk : Disk) (path : Text) (size total : ℕ) (hashed : Text) (chunks : List (Option Text))
    (w : World) (n : ℕ) (h : Text)
    → (stream_chunks disk path size total hashed chunks w).0 ≡ ok (n, h)
    → w.files path ≡ some hashed
    → total ≡ length hashed
    → ((stream_chunks disk path size total hashed chunks w).1.files path ≡ some h) × (n ≡ length h)
unfolding stream_chunks write_all
stream_chunks-ok disk path size total hashed [] w n h e f l = (ground arith, ground arith)
stream_chunks-ok disk path size total hashed (none ∷ rest) w n h e f l = cc
stream_chunks-ok disk path size total hashed (some chunk ∷ rest) w n h e f l = ground (
  arith,
  stream_chunks-ok disk path size (total + length chunk) (hashed ++ chunk) rest
      (write_all disk path chunk w).1 n h,
  length-append hashed chunk,
  text_eq_refl path,
)

-- The two calls that a successful chain is made of.
after-ok :
    {A B : Type 0} (r : Result DownloadError A × World) (f : A → Io B) (b : B)
    → (after r f).0 ≡ ok b
    → (a : A) × (r.0 ≡ ok a) × ((f a r.1).0 ≡ ok b) × ((after r f).1 ≡ (f a r.1).1)
after-ok (ok a, w) f b h = (a, refl, h, refl)
after-ok (err e, w) f b h = absurd (ground arith)

created-ok :
    (disk : Disk) (path : Text) (w : World)
    → (create_new disk path w).0 ≡ ok tt
    → (create_new disk path w).1.files path ≡ some []
unfolding create_new
created-ok disk path w h = elim (Option-cases (w.files path)) [
  | inl found ↦ ground (arith, text_eq_refl path)
  | inr found ↦ ground (arith, text_eq_refl path)
]

close_partial-ok :
    (net : Net) (disk : Disk) (request : PackageDownloadRequest) (m : ℕ) (hashed : Text) (w : World)
    (n : ℕ) (d : Text)
    → (close_partial net disk request (m, hashed) w).0 ≡ ok (n, d)
    → ((close_partial net disk request (m, hashed) w).1.files ≡ w.files)
      × (n ≡ m)
      × (n ≡ request.expected_size)
      × (d ≡ net.sha256_hex hashed)
unfolding close_partial plain_step
close_partial-ok net disk request m hashed w n d h =
    (ground arith, ground arith, ground arith, ground arith)

stream_to_partial-ok :
    (net : Net) (disk : Disk) (request : PackageDownloadRequest) (path : Text)
    (chunks : List (Option Text)) (w : World) (n : ℕ) (d : Text)
    → (stream_to_partial net disk request path chunks w).0 ≡ ok (n, d)
    → (content : Text) × ((stream_to_partial net disk request path chunks w).1.files path
        ≡ some content)
      × (n ≡ length content)
      × (n ≡ request.expected_size)
      × (d ≡ net.sha256_hex content)
unfolding stream_to_partial
stream_to_partial-ok net disk request path chunks w n d h =
    let w1 = (cleanup_partial disk path w).1 in
    let w2 = (create_new disk path w1).1 in
    let r3 = stream_chunks disk path request.expected_size 0 [] chunks w2 in
    let (_, cleaned, h1, s1) = after-ok (cleanup_partial disk path w) _ (n, d) h in
    let (_, created, h2, s2) = after-ok (create_new disk path w1) _ (n, d) h1 in
    let ((m, hashed), streamed, h3, s3) = after-ok r3 _ (n, d) h2 in
    let (stored, sized) =
      stream_chunks-ok disk path request.expected_size 0 [] chunks w2 m hashed streamed
        (created-ok disk path w1 created) refl in
    let (kept, same, equal, digest) = close_partial-ok net disk request m hashed r3.1 n d h3 in
    (
      hashed,
      ap (λ v. v.files path) (s1 ∙ s2 ∙ s3) ∙ ap (λ f. f path) kept ∙ stored,
      same ∙ sized,
      equal,
      digest,
    )

finish_stage-ok :
    (net : Net) (disk : Disk) (request : PackageDownloadRequest) (from to signature : Text) (n : ℕ)
    (d content : Text) (w : World)
    → (finish_stage net disk request from to signature (n, d) w).0 ≡ ok tt
    → w.files from ≡ some content
    → from ≢ to
    → ((finish_stage net disk request from to signature (n, d) w).1.files to ≡ some content)
      × ((finish_stage net disk request from to signature (n, d) w).1.files from ≡ none)
      × (d ≡ request.expected_sha256)
      × (verify_detached_signature net.ed25519 content signature ≡ ok tt)
unfolding finish_stage or_cleanup read rename
finish_stage-ok net disk request from to signature n d content w e f ne = (
  ground (arith, text_eq_iff from to, text_eq_refl to),
  ground (arith, text_eq_refl from),
  ground (arith, text_eq_iff d request.expected_sha256),
  ground (arith),
)

download_to_partial-ok :
    (net : Net) (disk : Disk) (request : PackageDownloadRequest) (path : Text) (w : World) (n : ℕ)
    (d : Text)
    → (download_to_partial net disk request path w).0 ≡ ok (n, d)
    → (content : Text) × ((download_to_partial net disk request path w).1.files path ≡ some content)
      × (n ≡ length content)
      × (n ≡ request.expected_size)
      × (d ≡ net.sha256_hex content)
unfolding download_to_partial
download_to_partial-ok net disk request path w n d h =
    let (response, _, h1, s1) =
      after-ok (lift (response_with_redirects net request.download_url) w) _ (n, d) h in
    let (chunks, _, h2, s2) = after-ok (lift (checked_status response) w) _ (n, d) h1 in
    let (content, stored, sized, expected, digest) =
      stream_to_partial-ok net disk request path chunks w n d h2 in
    (content, ap (λ v. v.files path) (s1 ∙ s2) ∙ stored, sized, expected, digest)

or_cleanup-ok :
    {A : Type 0} (disk : Disk) (path : Text) (m : Io A) (w : World) (a : A)
    → (or_cleanup disk path m w).0 ≡ ok a
    → ((m w).0 ≡ ok a) × ((or_cleanup disk path m w).1 ≡ (m w).1)
unfolding or_cleanup
or_cleanup-ok disk path m w a h = elim (Result-cases (m w).0) [
  | inl found ↦ (ground arith, ground arith)
  | inr found ↦ absurd (ground arith)
]

abbrev staged_as : Text → ℕ → Text → Result DownloadError StagedPackage
staged_as path n d = ok (record { path = path; size = n; sha256 = d })

staged-from :
    (path d d' : Text) (n n' : ℕ) (staged : StagedPackage)
    → staged_as path n d ≡ ok staged
    → n ≡ n'
    → d ≡ d'
    → staged ≡ record { path = path; size = n'; sha256 = d' }
staged-from path d d' n n' staged h e f = ground arith

-- A package that is staged: whatever was under its final name before, that file now holds a
-- content of the expected size and SHA-256 digest, and the signature that was downloaded from the
-- signature URL has 64 bytes and is the pinned key's signature of exactly that content; the
-- `.partial` file is gone. The answer names the final path, the size and the digest.
pub download_and_stage_sound :
    (net : Net) (disk : Disk) (request : PackageDownloadRequest) (w : World)
    (staged : StagedPackage)
    → (download_and_stage net disk request w).0 ≡ ok staged
    → (content signature : Text) × ((download_and_stage net disk request w).1.files
          (final_path request)
        ≡ some content)
      × ((download_and_stage net disk request w).1.files (partial_path request) ≡ none)
      × (length content ≡ request.expected_size)
      × (net.sha256_hex content ≡ request.expected_sha256)
      × (fetch_signature net request.signature_url ≡ ok signature)
      × (length signature ≡ 64)
      × (net.ed25519 pinned_key content signature ≡ true)
      × (staged ≡ record {
        path = final_path request;
        size = request.expected_size;
        sha256 = request.expected_sha256;
      })
unfolding download_and_stage
download_and_stage_sound net disk request w staged h =
    let path = partial_path request in
    let (_, valid, h1, s1) =
      after-ok (lift (validate_request net.parse_url request) w) _ staged h in
    let (_, made, h2, s2) = after-ok (plain_step disk w) _ staged h1 in
    let w2 = (plain_step disk w).1 in
    let (_, cleaned, h3, s3) = after-ok (cleanup_partial disk path w2) _ staged h2 in
    let w3 = (cleanup_partial disk path w2).1 in
    let fetched = or_cleanup disk path (lift (fetch_signature net request.signature_url)) in
    let (signature, got, h4, s4) = after-ok (fetched w3) _ staged h3 in
    let (fetch, kept) =
      or_cleanup-ok disk path (lift (fetch_signature net request.signature_url)) w3 signature got in
    let w4 = (fetched w3).1 in
    let load = or_cleanup disk path (download_to_partial net disk request path) in
    let ((n, d), loaded, h5, s5) = after-ok (load w4) _ staged h4 in
    let (streamed, kept2) =
      or_cleanup-ok disk path (download_to_partial net disk request path) w4 (n, d) loaded in
    let w5 = (load w4).1 in
    let (content, stored, sized, expected, digest) =
      download_to_partial-ok net disk request path w4 n d streamed in
    let fin = finish_stage net disk request path (final_path request) signature (n, d) w5 in
    let (_, finished, h6, s6) = after-ok fin _ staged h5 in
    let (final, gone, matches, verified) =
      finish_stage-ok net disk request path (final_path request) signature n d content w5 finished
        (ap (λ v. v.files path) kept2 ∙ stored) (partial-differs request) in
    let all = s1 ∙ s2 ∙ s3 ∙ s4 ∙ s5 ∙ s6 in
    let (long, signed) = (verify_detached_signature_iff net.ed25519 content signature).0 verified in
    (
      content,
      signature,
      ap (λ v. v.files (final_path request)) all ∙ final,
      ap (λ v. v.files path) all ∙ gone,
      sym sized ∙ expected,
      sym digest ∙ matches,
      fetch,
      long,
      signed,
      staged-from (final_path request) d request.expected_sha256 n request.expected_size staged h6
          expected matches,
    )
