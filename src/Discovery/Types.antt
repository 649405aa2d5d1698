-- ===== src/Discovery/Types.antt =====
-- The types of server/src/update_discovery.rs, and what it takes from other crates.
use luminos.Prelude.{ℕ, Bool, String, Option, List}
use luminos.Text.{Text}
use luminos.State.Types.{UpdateStateError}
use luminos.Distribution.Policy.{Url}

pub data DiscoveryOutcome : Type 0 where
  disabled : DiscoveryOutcome
  up_to_date : DiscoveryOutcome
  incompatible : DiscoveryOutcome
  replay_rejected : DiscoveryOutcome
  update_available : (version release_id package_filename : Text) → DiscoveryOutcome

pub data DiscoveryError : Type 0 where
  invalid_signature : DiscoveryError
  invalid_json : DiscoveryError
  invalid_manifest : String → DiscoveryError
  http : DiscoveryError
  http_status : ℕ → DiscoveryError
  response_too_large : DiscoveryError
  state : UpdateStateError → DiscoveryError

pub record ManifestPackage : Type 0 where
  pub filename : Text
  pub size : ℕ
  pub sha256 : Text
  pub signature_url : Text
  pub download_url : Text

pub record ManifestMinimums : Type 0 where
  pub photoos_version : Text
  pub update_agent_version : Text

pub record ManifestDocument : Type 0 where
  pub schema_version : ℕ
  pub product : Text
  pub channel : Text
  pub version : Text
  pub release_id : Text
  pub published_at : Text
  pub source_commit : Text
  pub package_ : ManifestPackage
  pub minimums : ManifestMinimums
  pub release_notes : List Text

pub record ValidatedManifest : Type 0 where
  pub version : Text
  pub release_id : Text
  pub published_at : Text
  pub source_commit : Text
  pub package_filename : Text
  pub package_size : ℕ
  pub package_sha256 : Text
  pub package_signature_url : Text
  pub package_download_url : Text
  pub minimum_photoos_version : Text
  pub minimum_update_agent_version : Text
  pub release_notes : List Text

-- A response of the HTTP client: its chunks come one after another, and any of them can fail.
pub record Response : Type 0 where
  pub status : ℕ
  pub content_length : Option ℕ
  pub chunks : List (Option Text)

-- What other crates do: reqwest's URLs and requests (`none` is a transport error), ring's Ed25519,
-- sha2's digest in lower-case hex, and serde_json's two steps from bytes to a document.
pub record Crates : Type 1 where
  pub Value : Type 0
  pub parse_url : Text → Option Url
  pub send : Text → Option Response
  pub ed25519 : Text → Text → Text → Bool
  pub sha256_hex : Text → Text
  pub from_slice : Text → Option Value
  pub from_value : Value → Option ManifestDocument
