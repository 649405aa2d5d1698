-- ===== src/Tests/Remote.antt =====
-- The release server, the Agent and the disk of the tests: one release of 1.3.0 that is signed and
-- served as it should be.
use luminos.Prelude.{Bool, true, false, Option, none, some, [], ◌∷◌, ◌++◌, if◌then◌else◌, length}
use luminos.Text.{Text, codes, text_eq}
use luminos.Distribution.Policy.{Url, release_host, stable_manifest_url, stable_signature_url}
use luminos.Discovery.Types.{ManifestDocument, ValidatedManifest, Crates}
use luminos.Discovery.Types
use luminos.Agent.Transport.{Body, AgentTransport, AgentEnv}
use luminos.Agent.Flow.{StagedPackage}
use luminos.Download.Files.{World, Disk}
use luminos.Download.Request.{PackageDownloadRequest}
use luminos.Download.Http
use luminos.Tests.Data.{february, digest}

abbrev pub filename : Text
filename = codes "photoos-1.3.0.popkg"

abbrev release_url : Text → Text
release_url name =
    codes "https://github.com/deniz3446/PhotoOS-Updates/releases/download/v1.3.0/" ++ name

abbrev pub package_url : Text
package_url = release_url filename

abbrev pub signature_url : Text
signature_url = release_url (codes "photoos-1.3.0.popkg.sig")

abbrev pub asset : Text → Url
asset name = record {
  scheme = codes "https";
  username = [];
  password = none;
  host_str = some release_host;
  port = none;
  path = codes "/deniz3446/PhotoOS-Updates/releases/download/v1.3.0/" ++ name;
  path_segments = some (
      codes "deniz3446"
      ∷ codes "PhotoOS-Updates"
      ∷ codes "releases"
      ∷ codes "download"
      ∷ codes "v1.3.0"
      ∷ name
      ∷ []);
  query = none;
  fragment = none;
}

-- A parser that knows the two URLs of the release.
abbrev pub parse_url : Text → Option Url
parse_url s =
    if text_eq s package_url
    then some (asset filename)
    else if text_eq s signature_url
    then some (asset (codes "photoos-1.3.0.popkg.sig"))
    else none

abbrev pub package_bytes : Text
package_bytes = codes "package"

abbrev pub manifest_bytes : Text
manifest_bytes = codes "{manifest}"

-- Any 64 bytes serve as the signature.
abbrev pub signature : Text
signature = digest

abbrev pub document : ManifestDocument
document = record {
  schema_version = 1;
  product = codes "PhotoOS";
  channel = codes "stable";
  version = codes "1.3.0";
  release_id = codes "1.3.0-20260210";
  published_at = february;
  source_commit = codes "0123456789abcdef0123456789abcdef01234567";
  package_ = record {
    filename = filename;
    size = 7;
    sha256 = digest;
    signature_url = signature_url;
    download_url = package_url;
  };
  minimums = record { photoos_version = codes "1.0.0"; update_agent_version = codes "1.1.0" };
  release_notes = [];
}

abbrev pub manifest : ValidatedManifest
manifest = record {
  version = codes "1.3.0";
  release_id = codes "1.3.0-20260210";
  published_at = february;
  source_commit = codes "0123456789abcdef0123456789abcdef01234567";
  package_filename = filename;
  package_size = 7;
  package_sha256 = digest;
  package_signature_url = signature_url;
  package_download_url = package_url;
  minimum_photoos_version = codes "1.0.0";
  minimum_update_agent_version = codes "1.1.0";
  release_notes = [];
}

abbrev served : Text → Types.Response
served body = record { status = 200; content_length = some (length body); chunks = some body ∷ [] }

abbrev pub crates : (Text → Text → Text → Bool) → Crates
crates ed25519 = record {
  Value = Unit;
  parse_url = parse_url;
  send = λ s.
      if text_eq s stable_manifest_url
      then some (served manifest_bytes)
      else if text_eq s stable_signature_url
      then some (served signature)
      else none;
  ed25519 = ed25519;
  sha256_hex = λ s. digest;
  from_slice = λ s. if text_eq s manifest_bytes then some tt else none;
  from_value = λ value. some document;
}

abbrev pub accepts : Text → Text → Text → Bool
accepts key payload s = text_eq s signature

abbrev pub refuses : Text → Text → Text → Bool
refuses key payload s = false

abbrev pub body : Body
body = record {
  get_str = λ key.
      if text_eq key (codes "filename")
      then some filename
      else if text_eq key (codes "version")
      then some (codes "1.3.0")
      else some digest;
  get_u64 = λ key. some 7;
  get_bool = λ key. some true;
}

abbrev pub agent : AgentEnv
agent = record { answer = λ log request. some (200, some body); file_size = λ path. some 7 }

abbrev pub transport : AgentTransport
transport = record { base_url = codes "http://127.0.0.1:4747"; token = some (codes "token") }

abbrev pub staged : StagedPackage
staged = record { path = codes "/staging/photoos-1.3.0.popkg"; size = 7; sha256 = digest }

abbrev pub request : PackageDownloadRequest
request = record {
  download_url = package_url;
  signature_url = signature_url;
  filename = filename;
  expected_size = 7;
  expected_sha256 = digest;
  staging_directory = codes "/staging";
}

abbrev answered : Text → Http.Response
answered content = record { status = 200; location = none; chunks = some content ∷ [] }

abbrev pub net : (Text → Text → Text → Bool) → Http.Net
net ed25519 = record {
  send = λ s.
      if text_eq s package_url
      then some (answered package_bytes)
      else if text_eq s signature_url
      then some (answered signature)
      else none;
  parse_url = parse_url;
  join_url = λ base location. some location;
  ed25519 = ed25519;
  sha256_hex = λ s. digest;
}

abbrev pub disk : Disk
disk = record { fails = λ n. false; torn = λ n. 0 }

abbrev pub empty_disk : World
empty_disk = record { files = λ path. none; steps = 0 }
