-- ===== src/Distribution/Policy.antt =====
-- The policy functions of server/src/update_distribution.rs. `reqwest::Url` is a parameter: the
-- parser gives a record of what the accessors return.
use luminos.Prelude.{
  ℕ, ◌*◌, Bool, true, false, ◌&&◌, ◌||◌, not, Option, none, some, List, [], ◌∷◌, Result, ok, err,
  ◌>>=◌, ◌>>◌, refuse_if, ok_or, ltb, ◌==◌, if◌then◌else◌,
}
use luminos.Text.{
  Text, codes, text_eq, is_empty, starts_with, ends_with, contains_byte, contains,
  to_ascii_lowercase,
}
use luminos.State.Types.{UpdateChannel, stable, beta, disabled}

pub data DistributionPolicyError : Type 0 where
  invalid_url invalid_scheme invalid_host invalid_credentials invalid_port : DistributionPolicyError
  invalid_path invalid_filename query_not_allowed : DistributionPolicyError
  fragment_not_allowed size_out_of_range : DistributionPolicyError

-- What the accessors of a parsed URL return.
pub record Url : Type 0 where
  pub scheme : Text
  pub username : Text
  pub password : Option Text
  pub host_str : Option Text
  pub port : Option ℕ
  pub path : Text
  pub path_segments : Option (List Text)
  pub query : Option Text
  pub fragment : Option Text

abbrev pub stable_manifest_url : Text
stable_manifest_url =
    codes "https://raw.githubusercontent.com/deniz3446/PhotoOS-Updates/main/channels/stable.json"

abbrev pub stable_signature_url : Text
stable_signature_url =
    codes
      "https://raw.githubusercontent.com/deniz3446/PhotoOS-Updates/main/channels/stable.json.sig"

abbrev pub beta_manifest_url : Text
beta_manifest_url =
    codes "https://raw.githubusercontent.com/deniz3446/PhotoOS-Updates/main/channels/beta.json"

abbrev pub beta_signature_url : Text
beta_signature_url =
    codes "https://raw.githubusercontent.com/deniz3446/PhotoOS-Updates/main/channels/beta.json.sig"

abbrev pub release_host : Text
release_host = codes "github.com"

abbrev pub release_asset_host : Text
release_asset_host = codes "release-assets.githubusercontent.com"

abbrev pub owner : Text
owner = codes "deniz3446"

abbrev pub repository : Text
repository = codes "PhotoOS-Updates"

abbrev pub max_redirects : ℕ
max_redirects = 3

abbrev pub max_manifest_bytes : ℕ
max_manifest_bytes = 256 * 1024

abbrev pub max_signature_bytes : ℕ
max_signature_bytes = 4 * 1024

abbrev pub max_package_bytes : ℕ
max_package_bytes = 512 * 1024 * 1024

unfoldable pub channel_manifest_url : UpdateChannel → Option Text
channel_manifest_url stable = some stable_manifest_url
channel_manifest_url beta = some beta_manifest_url
channel_manifest_url disabled = none

unfoldable pub channel_signature_url : UpdateChannel → Option Text
channel_signature_url stable = some stable_signature_url
channel_signature_url beta = some beta_signature_url
channel_signature_url disabled = none

abbrev pub is_some {ℓ} : {A : Type ℓ} → Option A → Bool
is_some none = false
is_some (some a) = true

abbrev pub is_text : Option Text → Text → Bool
is_text none t = false
is_text (some s) t = text_eq s t

unfoldable pub parse_https_url : (Text → Option Url) → Text → Result DistributionPolicyError Url
parse_https_url parse raw = do
  url ← ok_or invalid_url (parse raw)
  refuse_if (not (text_eq url.scheme (codes "https"))) invalid_scheme
  refuse_if (not (is_empty url.username) || is_some url.password) invalid_credentials
  refuse_if (is_some url.port) invalid_port
  refuse_if (is_some url.fragment) fragment_not_allowed
  ok url

unfoldable pub validate_leaf_filename : Text → Result DistributionPolicyError (Unit {0})
validate_leaf_filename filename = do
  refuse_if
      (is_empty filename
        || text_eq filename (codes ".")
        || text_eq filename (codes "..")
        || contains_byte filename b'/'
        || contains_byte filename 0x5c
        || contains_byte filename b'?'
        || contains_byte filename b'#'
        || contains_byte filename b'%')
      invalid_filename
  refuse_if
      (not (ends_with filename (codes ".popkg")) && not (ends_with filename (codes ".popkg.sig")))
      invalid_filename

unfoldable pub has_release_path_escape : Text → Bool
has_release_path_escape raw =
    let lower = to_ascii_lowercase raw in
    contains lower (codes "/../")
    || ends_with lower (codes "/..")
    || contains lower (codes "%2e")
    || contains lower (codes "%2f")
    || contains lower (codes "%5c")

-- `segments.len() == 6 && …` over the collected segments.
unfoldable pub official_segments : List Text → Bool
official_segments (s0 ∷ s1 ∷ s2 ∷ s3 ∷ s4 ∷ s5 ∷ []) =
    text_eq s0 owner
    && text_eq s1 repository
    && text_eq s2 (codes "releases")
    && text_eq s3 (codes "download")
    && not (is_empty s4)
    && not (text_eq s4 (codes "."))
    && not (text_eq s4 (codes ".."))
    && not (is_empty s5)
official_segments _ = false

abbrev pub official_path_segments : Option (List Text) → Bool
official_path_segments none = false
official_path_segments (some segments) = official_segments segments

unfoldable pub official_release_path : Url → Bool
unfolding official_segments
official_release_path url = official_path_segments url.path_segments

-- `segments.next_back()`
unfoldable pub last_segment : List Text → Option Text
last_segment [] = none
last_segment (s ∷ []) = some s
last_segment (s ∷ t ∷ ss) = last_segment (t ∷ ss)

abbrev pub path_leaf : Option (List Text) → Option Text
path_leaf none = none
path_leaf (some segments) = last_segment segments

unfoldable pub validate_release_asset_url :
    (Text → Option Url) → Text → Text → Result DistributionPolicyError (Unit {0})
unfolding last_segment
validate_release_asset_url parse raw expected_filename = do
  validate_leaf_filename expected_filename
  refuse_if (has_release_path_escape raw) invalid_path
  url ← parse_https_url parse raw
  refuse_if (not (is_text url.host_str release_host)) invalid_host
  refuse_if (is_some url.query) query_not_allowed
  refuse_if (not (official_release_path url)) invalid_path
  actual_filename ← ok_or invalid_path (path_leaf url.path_segments)
  refuse_if (not (text_eq actual_filename expected_filename)) invalid_filename

-- The arm of the release host.
unfoldable pub release_redirect : Text → Url → Result DistributionPolicyError (Unit {0})
release_redirect raw url = do
  refuse_if (has_release_path_escape raw) invalid_path
  refuse_if (is_some url.query) query_not_allowed
  refuse_if (not (official_release_path url)) invalid_path

-- The three arms of the `match url.host_str()`.
unfoldable pub redirect_by_host : Text → Url → Result DistributionPolicyError (Unit {0})
unfolding release_redirect
redirect_by_host raw url =
    if is_text url.host_str release_host
    then release_redirect raw url
    else if is_text url.host_str release_asset_host
    then refuse_if (not (starts_with url.path (codes "/github-production-release-asset/")))
        invalid_path
    else err invalid_host

unfoldable pub validate_redirect_target :
    (Text → Option Url) → Text → Result DistributionPolicyError (Unit {0})
unfolding redirect_by_host
validate_redirect_target parse raw = do url ← parse_https_url parse raw; redirect_by_host raw url

unfoldable pub can_follow_redirect : ℕ → Bool
can_follow_redirect redirects_already_followed = ltb redirects_already_followed max_redirects

unfoldable pub validate_positive_bounded_size : ℕ → ℕ → Result DistributionPolicyError (Unit {0})
validate_positive_bounded_size size maximum =
    refuse_if (size == 0 || ltb maximum size) size_out_of_range

unfoldable pub validate_manifest_response_size : ℕ → Result DistributionPolicyError (Unit {0})
unfolding validate_positive_bounded_size
validate_manifest_response_size size = validate_positive_bounded_size size max_manifest_bytes

unfoldable pub validate_signature_response_size : ℕ → Result DistributionPolicyError (Unit {0})
unfolding validate_positive_bounded_size
validate_signature_response_size size = validate_positive_bounded_size size max_signature_bytes

unfoldable pub validate_package_size : ℕ → Result DistributionPolicyError (Unit {0})
unfolding validate_positive_bounded_size
validate_package_size size = validate_positive_bounded_size size max_package_bytes
