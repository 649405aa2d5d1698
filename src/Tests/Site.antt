-- ===== src/Tests/Site.antt =====
-- The site of the tests for the handlers: an administrator, the release server, the Agent and the
-- files of Remote, and a staged package that can be read again.
use luminos.Prelude.{true, none, some, [], ◌∷◌, if◌then◌else◌}
use luminos.Text.{Text, codes, text_eq}
use luminos.State.Types.{pos}
use luminos.Agent.Transport.{Body, AgentEnv}
use luminos.Updates.Server.{Site, Server, FileSystem, directory, regular}
use luminos.Updates.Access.{Headers}
use luminos.Updates.Target.{UpdateTarget}
use luminos.Updates.Operation.{InstallVerifiedUpdateRequest}
use luminos.Tests.Data.{february, digest, empty_db}
use luminos.Tests.Remote.{filename, package_bytes, crates, accepts, net, disk, empty_disk}

abbrev body : Body
body = record {
  get_str = λ key.
      if text_eq key (codes "filename")
      then some filename
      else if text_eq key (codes "version")
      then some (codes "1.3.0")
      else if text_eq key (codes "agent_version")
      then some (codes "1.2.0")
      else some digest;
  get_u64 = λ key. some 7;
  get_bool = λ key. some true;
}

abbrev agent : AgentEnv
agent = record { answer = λ log request. some (200, some body); file_size = λ path. some 7 }

abbrev pub staging : Text
staging = codes "/srv/updates/staging"

abbrev fs : FileSystem
fs = record {
  symlink_metadata = λ path. if text_eq path staging then some directory else some regular;
  canonicalize = some;
  open_file = λ path. some (record { metadata = some (true, 7); reads = some package_bytes ∷ [] });
}

abbrev pub operation_id : Text
operation_id = codes "op-1"

abbrev pub site : Site
site = record {
  decode_token = λ token. if text_eq token (codes "admin") then some (pos 1) else none;
  role_of = λ user. some (codes "admin");
  env_file = some (codes "PHOTOOS_UPDATE_TOKEN=token");
  agent = agent;
  crates = crates accepts;
  discovery_ready = true;
  net = net accepts;
  disk = disk;
  downloader_ready = true;
  fs = fs;
  is_uuid = λ s. text_eq s operation_id;
  new_uuid = operation_id;
  now = λ n. february;
  running_version = codes "1.2.0";
  runtime_directory = codes "/srv";
}

abbrev pub headers : Headers
headers = some (codes "Bearer admin")

abbrev pub target : UpdateTarget
target = record {
  version = codes "1.3.0";
  release_id = codes "1.3.0-20260210";
  package_filename = filename;
}

abbrev pub install_now : InstallVerifiedUpdateRequest
install_now = record { operation_id = operation_id; approved = true }

abbrev pub start : Server
start = record { db = empty_db; log = []; world = empty_disk }
