-- ===== src/Download/Request.antt =====
-- The request of server/src/update_download.rs, and its validation. The build is the production
-- one: `is_test_transport` is false.
use luminos.Prelude.{
  ℕ, Bool, ◌&&◌, ◌||◌, not, Option, ◌++◌, Result, ◌>>◌, refuse_if, map_err, ltb, ◌==◌, length, all,
}
use luminos.Text.{Text, codes, text_eq, is_empty, ends_with, contains_byte, is_lower_hex}
use luminos.Distribution.Policy.{
  Url, max_package_bytes, validate_package_size, validate_release_asset_url,
}
use luminos.Download.Files.{DownloadError, invalid_request}

pub record PackageDownloadRequest : Type 0 where
  pub download_url : Text
  pub signature_url : Text
  pub filename : Text
  pub expected_size : ℕ
  pub expected_sha256 : Text
  pub staging_directory : Text

unfoldable pub validate_filename : Text → Result DownloadError (Unit {0})
validate_filename filename =
    refuse_if
      (is_empty filename
        || text_eq filename (codes ".")
        || text_eq filename (codes "..")
        || contains_byte filename b'/'
        || contains_byte filename 0x5c
        || contains_byte filename b'%'
        || contains_byte filename b'?'
        || contains_byte filename b'#'
        || not (ends_with filename (codes ".popkg")))
      invalid_request

unfoldable pub valid_sha256 : Text → Bool
valid_sha256 digest = length digest == 64 && all is_lower_hex digest

unfoldable pub validate_request :
    (Text → Option Url) → PackageDownloadRequest → Result DownloadError (Unit {0})
validate_request parse_url request = do
  validate_filename request.filename
  refuse_if (not (valid_sha256 request.expected_sha256)) invalid_request
  map_err (λ e. invalid_request) (validate_package_size request.expected_size)
  refuse_if (ltb max_package_bytes request.expected_size) invalid_request
  map_err (λ e. invalid_request)
      (validate_release_asset_url parse_url request.download_url request.filename)
  map_err (λ e. invalid_request)
      (validate_release_asset_url parse_url request.signature_url
        (request.filename ++ codes ".sig"))
