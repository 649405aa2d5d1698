-- ===== src/State/Rows.antt =====
-- The checks of server/src/update_state.rs between its statements: on a candidate before anything
-- is read, on the row that was read, and on the record that is built from a row.
use luminos.Prelude.{
  ℕ, ◌||◌, not, Option, none, some, Result, ok, ◌>>=◌, ◌>>◌, refuse_if, ltb, if◌then◌else◌,
}
use luminos.Text.{Text, codes, text_eq, is_empty, trim}
use luminos.Version.{NumericVersion, version_leb}
use luminos.State.Types.{
  UpdateChannel, stable, ManifestReplayCandidate, ReplayDecision, already_seen, rejected_regression,
  UpdateOperationRecord, VerifiedUpdateOperationRecord, UpdateStateError, invalid_channel,
  invalid_operation_status, invalid_operation_id,
}
use luminos.State.Channel
use luminos.State.Status
use luminos.State.Validate.{
  parse_version, parse_timestamp, validate_digest, validate_release_id, validate_package_filename,
  package_size_for_db, package_size_from_db,
}
use luminos.State.Types.{ℤ}
use luminos.State.Db.{ReplayRow, OperationRow}
use luminos.State.Sql.{JoinedRow}

unfoldable pub channel_or_stable : Option Text → Result UpdateStateError UpdateChannel
channel_or_stable none = ok stable
channel_or_stable (some value) = Channel.from_db value

module _ (parse_from_rfc3339 : Text → Option ℕ) where
  -- The version and the time of a candidate that passes.
  unfoldable pub check_candidate :
      ManifestReplayCandidate → Result UpdateStateError (NumericVersion × ℕ)
  check_candidate candidate = do
    refuse_if (Channel.is_disabled candidate.channel) (invalid_channel (codes "disabled"))
    version ← parse_version candidate.version
    published ← parse_timestamp parse_from_rfc3339 candidate.published_at
    validate_digest candidate.manifest_sha256
    ok (version, published)

  -- The early returns on the row of the channel; `none` goes on to the upsert.
  unfoldable pub replay_check :
      ManifestReplayCandidate
      → NumericVersion
      → ℕ
      → Option ReplayRow
      → Result UpdateStateError (Option ReplayDecision)
  replay_check candidate version published none = ok none
  replay_check candidate version published (some old) =
      if text_eq old.manifest_sha256 candidate.manifest_sha256 then ok (some already_seen) else do
        old_version ← parse_version old.version
        old_published ← parse_timestamp parse_from_rfc3339 old.published_at
        ok (
            if version_leb version old_version || ltb published old_published
            then some rejected_regression
            else none)

  unfoldable pub check_operation : UpdateOperationRecord → Result UpdateStateError (Unit {0})
  check_operation operation = do
    refuse_if (is_empty (trim operation.operation_id)) invalid_operation_id
    parse_version operation.target_version
    parse_timestamp parse_from_rfc3339 operation.updated_at
    ok tt

  -- The size as it is stored.
  unfoldable pub check_verified_operation :
      VerifiedUpdateOperationRecord → Result UpdateStateError ℤ
  check_verified_operation operation = do
    refuse_if (is_empty (trim operation.operation_id)) invalid_operation_id
    refuse_if (not (Status.is_verified operation.status))
        (invalid_operation_status (Status.as_str operation.status))
    parse_version operation.target_version
    parse_timestamp parse_from_rfc3339 operation.updated_at
    validate_release_id operation.release_id
    validate_package_filename operation.package_filename
    validate_digest operation.package_sha256
    package_size_for_db operation.package_size

  -- The checks on a stored row that both readers make, and the record that they build.
  unfoldable pub record_of_row :
      Text → JoinedRow → Result UpdateStateError VerifiedUpdateOperationRecord
  record_of_row operation_id row = do
    parse_version row.target_version
    validate_release_id row.release_id
    validate_package_filename row.package_filename
    validate_digest row.package_sha256
    parse_timestamp parse_from_rfc3339 row.updated_at
    package_size ← package_size_from_db row.package_size
    status ← Status.from_db row.status
    ok (record {
      operation_id = operation_id;
      target_version = row.target_version;
      release_id = row.release_id;
      package_filename = row.package_filename;
      package_sha256 = row.package_sha256;
      package_size = package_size;
      status = status;
      updated_at = row.updated_at;
    })

unfoldable pub operation_of_row :
    Text → OperationRow → Result UpdateStateError UpdateOperationRecord
operation_of_row operation_id row = do
  status ← Status.from_db row.status
  ok (record {
    operation_id = operation_id;
    target_version = row.target_version;
    status = status;
    updated_at = row.updated_at;
  })
