-- ===== src/Tests/Download.antt =====
-- The theorems on the download at concrete inputs.
use luminos.Prelude.{arith, ◌≡◌, refl, true, none, some, ok, err, length}
use luminos.Text.{
  codes, text_eq, starts_with, ends_with, contains, contains_byte, is_lower_hex, to_ascii_lowercase,
  Text,
}
use luminos.Distribution.Policy.{
  parse_https_url, validate_leaf_filename, has_release_path_escape, official_release_path,
  validate_release_asset_url, validate_package_size,
}
use luminos.Trust.{verify_detached_signature, pinned_key, pinned_public_key_raw}
use luminos.Download.Files.{
  invalid_signature, plain_step, cleanup_partial, create_new, write_all, read, rename, join,
}
use luminos.Download.Request.{validate_request, valid_sha256, validate_filename}
use luminos.Download.Http.{redirect_loop, response_with_redirects, fetch_signature, read_signature}
use luminos.Download.Stage.{
  check_total, stream_chunks, stream_to_partial, close_partial, download_to_partial, or_cleanup,
  finish_stage, final_path, partial_path, download_and_stage,
}
use luminos.Download.Staged.{download_and_stage_sound}
use luminos.Download.Untouched.{download_and_stage_untouched}
use luminos.Download.Redirects.{response_with_redirects-fuel}
use luminos.Tests.Data.{digest}
use luminos.Tests.Remote.{
  package_url, signature_url, accepts, refuses, staged, request, net, disk, empty_disk,
}

package_staged : (download_and_stage (net accepts) disk request empty_disk).0 ≡ ok staged
unfolding text_eq starts_with ends_with contains contains_byte is_lower_hex to_ascii_lowercase
    parse_https_url validate_leaf_filename has_release_path_escape official_release_path
    validate_release_asset_url validate_package_size verify_detached_signature pinned_public_key_raw
    plain_step cleanup_partial create_new write_all read rename join validate_request valid_sha256
    validate_filename redirect_loop response_with_redirects fetch_signature read_signature
    check_total stream_chunks stream_to_partial close_partial download_to_partial or_cleanup
    finish_stage download_and_stage
package_staged = refl

package_refused :
    (download_and_stage (net refuses) disk request empty_disk).0 ≡ err invalid_signature
unfolding text_eq starts_with ends_with contains contains_byte is_lower_hex to_ascii_lowercase
    parse_https_url validate_leaf_filename has_release_path_escape official_release_path
    validate_release_asset_url validate_package_size verify_detached_signature pinned_public_key_raw
    plain_step cleanup_partial create_new write_all read rename join validate_request valid_sha256
    validate_filename redirect_loop response_with_redirects fetch_signature read_signature
    check_total stream_chunks stream_to_partial close_partial download_to_partial or_cleanup
    finish_stage download_and_stage
package_refused = refl

download_and_stage_sound_example :
    (content s : Text) × ((download_and_stage (net accepts) disk request empty_disk).1.files
        (final_path request)
      ≡ some content)
    × ((download_and_stage (net accepts) disk request empty_disk).1.files (partial_path request)
        ≡ none)
    × (length content ≡ 7)
    × (digest ≡ digest)
    × (fetch_signature (net accepts) signature_url ≡ ok s)
    × (length s ≡ 64)
    × (accepts pinned_key content s ≡ true)
    × (staged ≡ record { path = final_path request; size = 7; sha256 = digest })
download_and_stage_sound_example =
    download_and_stage_sound (net accepts) disk request empty_disk staged package_staged

download_and_stage_untouched_example :
    (download_and_stage (net refuses) disk request empty_disk).1.files
      (codes "/staging/other.popkg")
    ≡ none
unfolding join starts_with ends_with
download_and_stage_untouched_example =
    download_and_stage_untouched (net refuses) disk request empty_disk invalid_signature
      (codes "/staging/other.popkg") package_refused (λ same. cc)

response_with_redirects-fuel_example :
    redirect_loop (net accepts) 9 0 package_url ≡ response_with_redirects (net accepts) package_url
response_with_redirects-fuel_example =
    response_with_redirects-fuel (net accepts) 9 package_url (omega arith)
