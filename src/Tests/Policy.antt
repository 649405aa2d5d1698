-- ===== src/Tests/Policy.antt =====
-- The theorems on URLs and signatures at concrete inputs.
use luminos.Prelude.{◌≡◌, ◌↔◌, ◌⊎◌, refl, true, false, some, ok, length}
use luminos.Text.{
  text_eq, starts_with, ends_with, contains, contains_byte, to_ascii_lowercase, Text,
}
use luminos.Distribution.Policy.{
  Url, parse_https_url, validate_leaf_filename, has_release_path_escape, official_release_path,
  validate_release_asset_url, validate_redirect_target,
}
use luminos.Distribution.Assets.{
  IsLeaf, IsOfficialAsset, IsPlainHttps, validate_release_asset_url_iff,
}
use luminos.Distribution.Redirects.{
  IsReleaseRedirect, IsAssetRedirect, validate_redirect_target_iff,
}
use luminos.Trust.{verify_detached_signature, verify_detached_signature_iff, pinned_key}
use luminos.Tests.Remote.{package_url, filename, parse_url, accepts, package_bytes, signature}

package_url_allowed : validate_release_asset_url parse_url package_url filename ≡ ok tt
unfolding text_eq starts_with ends_with contains contains_byte to_ascii_lowercase parse_https_url
    validate_leaf_filename has_release_path_escape official_release_path validate_release_asset_url
package_url_allowed = refl

validate_release_asset_url_iff_example :
    (validate_release_asset_url parse_url package_url filename ≡ ok tt) ↔ (
      IsLeaf filename
      × (has_release_path_escape package_url ≡ false)
      × (url : Url) × (tag : Text) × (parse_url package_url ≡ some url)
      × IsOfficialAsset url filename tag)
validate_release_asset_url_iff_example =
    validate_release_asset_url_iff parse_url package_url filename

validate_redirect_target_iff_example : (validate_redirect_target parse_url package_url ≡ ok tt) ↔ (
    (url : Url) × (parse_url package_url ≡ some url)
    × IsPlainHttps url
    × (IsReleaseRedirect package_url url ⊎ IsAssetRedirect url))
validate_redirect_target_iff_example = validate_redirect_target_iff parse_url package_url

verify_detached_signature_iff_example :
    (verify_detached_signature accepts package_bytes signature ≡ ok tt)
    ↔ ((length signature ≡ 64) × (accepts pinned_key package_bytes signature ≡ true))
verify_detached_signature_iff_example =
    verify_detached_signature_iff accepts package_bytes signature
