-- ===== src/Tests/Data.antt =====
-- Inputs of the tests: an environment in which nothing fails, and the update from 1.2.0 to 1.3.0.
use luminos.Prelude.{false, none, some, if◌then◌else◌}
use luminos.Text.{Text, codes, text_eq}
use luminos.State.Types.{
  stable, ManifestReplayCandidate, VerifiedUpdateOperationRecord, UpdateOperationRecord, verified,
  succeeded,
}
use luminos.State.Db.{Env, Db}

abbrev pub january : Text
january = codes "2026-01-10T12:00:00Z"

abbrev pub february : Text
february = codes "2026-02-10T12:00:00Z"

-- It knows two timestamps.
abbrev pub env : Env
env = record {
  parse_from_rfc3339 = λ s.
      if text_eq s january
      then some 1768046400
      else if text_eq s february
      then some 1770724800
      else none;
  fails = λ n. false;
  current_timestamp = λ n. codes "2026-02-11 08:00:00";
}

abbrev pub empty_db : Db
empty_db = record {
  tables = record {
    preferences = none;
    replay = λ k. none;
    operations = λ k. none;
    verified = λ k. none;
  };
  statements = 0;
}

abbrev pub digest : Text
digest = codes "0123456789abcdef0123456789abcdef0123456789abcdef0123456789abcdef"

abbrev pub other_digest : Text
other_digest = codes "fedcba9876543210fedcba9876543210fedcba9876543210fedcba9876543210"

abbrev pub older : ManifestReplayCandidate
older = record {
  channel = stable;
  version = codes "1.2.0";
  published_at = january;
  manifest_sha256 = digest;
}

abbrev pub newer : ManifestReplayCandidate
newer = record {
  channel = stable;
  version = codes "1.3.0";
  published_at = february;
  manifest_sha256 = other_digest;
}

abbrev pub operation : VerifiedUpdateOperationRecord
operation = record {
  operation_id = codes "op-1";
  target_version = codes "1.3.0";
  release_id = codes "1.3.0-20260210";
  package_filename = codes "photoos-1.3.0.popkg";
  package_sha256 = digest;
  package_size = 4096;
  status = verified;
  updated_at = february;
}

abbrev pub finished : UpdateOperationRecord
finished = record {
  operation_id = codes "op-2";
  target_version = codes "1.2.0";
  status = succeeded;
  updated_at = february;
}
