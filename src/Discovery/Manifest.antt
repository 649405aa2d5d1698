-- ===== src/Discovery/Manifest.antt =====
-- Validation of a manifest in server/src/update_discovery.rs, and the outcome for a valid one.
use luminos.Prelude.{
  ℕ, Bool, ◌&&◌, ◌||◌, not, Option, none, List, [], ◌∷◌, ◌++◌, Result, ok, err, ◌>>=◌, ◌>>◌,
  refuse_if, ok_or, map_err, ltb, ◌==◌, if◌then◌else◌, length, all,
}
use luminos.Text.{
  Text, codes, text_eq, is_empty, starts_with, split, is_ascii_digit, is_lower_hex,
  is_ascii_alphanumeric, parse_u64,
}
use luminos.Version.{NumericVersion, version_ltb, version_leb}
use luminos.State.Types.{UpdateChannel, stable, beta}
use luminos.State.Types
use luminos.Distribution.Policy.{
  Url, validate_package_size, validate_release_asset_url, validate_manifest_response_size,
  validate_signature_response_size,
}
use luminos.Trust.{verify_detached_signature}
use luminos.Discovery.Types.{
  DiscoveryOutcome, up_to_date, incompatible, update_available, DiscoveryError, invalid_signature,
  invalid_json, invalid_manifest, response_too_large, ManifestDocument, ValidatedManifest, Crates,
}

unfoldable pub parse_part : Text → Option ℕ
parse_part raw =
    if is_empty raw
    then none
    else if ltb 1 (length raw) && starts_with raw (codes "0")
    then none
    else if not (all is_ascii_digit raw)
    then none
    else parse_u64 raw

-- The four calls of `parts.next()`.
unfoldable pub version_of_parts : List Text → Result DiscoveryError NumericVersion
version_of_parts (a ∷ b ∷ c ∷ []) = do
  major ← ok_or (invalid_manifest "invalid major version") (parse_part a)
  minor ← ok_or (invalid_manifest "invalid minor version") (parse_part b)
  patch ← ok_or (invalid_manifest "invalid patch version") (parse_part c)
  ok (record { major = major; minor = minor; patch = patch })
version_of_parts _ = err (invalid_manifest "version must be major.minor.patch")

unfoldable pub parse_version : Text → Result DiscoveryError NumericVersion
unfolding version_of_parts
parse_version value = version_of_parts (split b'.' value)

unfoldable pub valid_lower_hex : Text → ℕ → Bool
valid_lower_hex value expected_len = length value == expected_len && all is_lower_hex value

abbrev is_release_byte : ℕ → Bool
is_release_byte b = is_ascii_alphanumeric b || b == b'.' || b == b'-' || b == b'_'

unfoldable pub valid_release_id : Text → Text → Bool
valid_release_id version release_id =
    not (ltb 160 (length release_id))
    && starts_with release_id (version ++ codes "-")
    && all is_release_byte release_id

unfoldable pub expected_channel_name : UpdateChannel → Result DiscoveryError Text
expected_channel_name stable = ok (codes "stable")
expected_channel_name beta = ok (codes "beta")
expected_channel_name Types.disabled =
    err (invalid_manifest "disabled channel has no remote manifest")

unfoldable pub validate_document :
    (Text → Option Url)
    → (Text → Option ℕ)
    → ManifestDocument
    → UpdateChannel
    → Result DiscoveryError ValidatedManifest
validate_document parse_url parse_from_rfc3339 manifest expected_channel = do
  refuse_if (not (manifest.schema_version == 1)) (invalid_manifest "unsupported schema_version")
  refuse_if (not (text_eq manifest.product (codes "PhotoOS")))
      (invalid_manifest "product must be PhotoOS")
  name ← expected_channel_name expected_channel
  refuse_if (not (text_eq manifest.channel name)) (invalid_manifest "manifest channel mismatch")
  parse_version manifest.version
  refuse_if (not (valid_release_id manifest.version manifest.release_id))
      (invalid_manifest "invalid release_id")
  ok_or (invalid_manifest "invalid published_at") (parse_from_rfc3339 manifest.published_at)
  refuse_if (not (valid_lower_hex manifest.source_commit 40))
      (invalid_manifest "source_commit must be 40 lowercase hex characters")
  refuse_if (not (valid_lower_hex manifest.package_.sha256 64))
      (invalid_manifest "package SHA256 must be 64 lowercase hex characters")
  map_err (λ e. invalid_manifest "package size is outside the allowed range")
      (validate_package_size manifest.package_.size)
  map_err (λ e. invalid_manifest "package download URL is not allowed")
      (validate_release_asset_url parse_url manifest.package_.download_url
        manifest.package_.filename)
  map_err (λ e. invalid_manifest "package signature URL is not allowed")
      (validate_release_asset_url parse_url manifest.package_.signature_url
        (manifest.package_.filename ++ codes ".sig"))
  parse_version manifest.minimums.photoos_version
  parse_version manifest.minimums.update_agent_version
  ok (record {
    version = manifest.version;
    release_id = manifest.release_id;
    published_at = manifest.published_at;
    source_commit = manifest.source_commit;
    package_filename = manifest.package_.filename;
    package_size = manifest.package_.size;
    package_sha256 = manifest.package_.sha256;
    package_signature_url = manifest.package_.signature_url;
    package_download_url = manifest.package_.download_url;
    minimum_photoos_version = manifest.minimums.photoos_version;
    minimum_update_agent_version = manifest.minimums.update_agent_version;
    release_notes = manifest.release_notes;
  })

module _ (x : Crates) (parse_from_rfc3339 : Text → Option ℕ) where
  unfoldable pub validate_manifest_value :
      x.Value → UpdateChannel → Result DiscoveryError ValidatedManifest
  validate_manifest_value value expected_channel = do
    manifest ← ok_or invalid_json (x.from_value value)
    validate_document x.parse_url parse_from_rfc3339 manifest expected_channel

  unfoldable pub verify_and_parse_manifest :
      UpdateChannel → Text → Text → Result DiscoveryError ValidatedManifest
  verify_and_parse_manifest expected_channel manifest_bytes signature_bytes = do
    map_err (λ e. response_too_large) (validate_manifest_response_size (length manifest_bytes))
    map_err (λ e. response_too_large) (validate_signature_response_size (length signature_bytes))
    map_err (λ e. invalid_signature)
        (verify_detached_signature x.ed25519 manifest_bytes signature_bytes)
    value ← ok_or invalid_json (x.from_slice manifest_bytes)
    validate_manifest_value value expected_channel

unfoldable pub outcome_for_manifest_for_versions :
    Text → Text → ValidatedManifest → Result DiscoveryError DiscoveryOutcome
outcome_for_manifest_for_versions running_version update_agent_version manifest = do
  running ← parse_version running_version
  minimum_photoos ← parse_version manifest.minimum_photoos_version
  if version_ltb running minimum_photoos then ok incompatible else (do
    update_agent ← parse_version update_agent_version
    minimum_agent ← parse_version manifest.minimum_update_agent_version
    if version_ltb update_agent minimum_agent then ok incompatible else (do
      offered ← parse_version manifest.version
      ok (
          if version_leb offered running
          then up_to_date
          else update_available manifest.version manifest.release_id manifest.package_filename)))

unfoldable pub outcome_for_manifest :
    Text → ValidatedManifest → Result DiscoveryError DiscoveryOutcome
unfolding outcome_for_manifest_for_versions
outcome_for_manifest running_version manifest =
    outcome_for_manifest_for_versions running_version manifest.minimum_update_agent_version manifest
