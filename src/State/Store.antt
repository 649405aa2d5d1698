-- ===== src/State/Store.antt =====
-- `impl UpdateStateStore` of server/src/update_state.rs: one function for each method.
use luminos.Prelude.{Bool, true, false, not, Option, none, some, Result, ok, err, refuse_if}
use luminos.Prelude
use luminos.Text.{Text, codes, is_empty, trim}
use luminos.State.Types.{
  ℤ, UpdateChannel, ManifestReplayCandidate, ReplayDecision, accepted, UpdateOperationRecord,
  VerifiedUpdateOperationRecord, invalid_operation_status, invalid_operation_id, UpdateStateError,
}
use luminos.State.Channel
use luminos.State.Status
use luminos.State.Validate.{parse_timestamp}
use luminos.State.Db.{
  ReplayRow, OperationRow, Env, Store, ◌>>=◌, ◌>>◌, lift, pure, statement, Ending, commit, rollback,
  transaction,
}
use luminos.State.Sql.{
  default_preferences, select_channel, upsert_channel, select_replay, upsert_replay,
  upsert_operation, select_operation, insert_operation, insert_verified, JoinedRow, select_verified,
  update_claimed,
}
use luminos.State.Rows.{
  channel_or_stable, check_candidate, replay_check, check_operation, check_verified_operation,
  record_of_row, operation_of_row,
}

-- CURRENT_TIMESTAMP of the statement that is sent next.
abbrev with_timestamp : {A : Type 0} → Env → (Text → Store A) → Store A
with_timestamp env f db = f (env.current_timestamp db.statements) db

-- The tables are there in this model. The two statements stand for the parts of the two scripts: the
-- first one up to its INSERT of the default channel and with it, and what is behind it, so that a script that
-- fails part of the way may leave the default channel with an error.
unfoldable pub ensure_schema : Env → Store (Unit {0})
ensure_schema env = do
  with_timestamp env (λ now. statement env (default_preferences now))
  statement env (λ t. some (tt, t))

unfoldable pub get_channel : Env → Store UpdateChannel
get_channel env = do channel ← statement env select_channel; lift (channel_or_stable channel)

unfoldable pub set_channel : Env → UpdateChannel → Store (Unit {0})
set_channel env channel =
    with_timestamp env (λ now. statement env (upsert_channel now (Channel.as_str channel)))

abbrev pub replay_row : ManifestReplayCandidate → Text → ReplayRow
replay_row candidate now = record {
  version = candidate.version;
  published_at = candidate.published_at;
  manifest_sha256 = candidate.manifest_sha256;
  observed_at = now;
}

-- The part of `observe_manifest` after the row of the channel has been read.
unfoldable pub record_manifest :
    Env → ManifestReplayCandidate → Option ReplayDecision → Store ReplayDecision
record_manifest env candidate (some decision) = pure decision
record_manifest env candidate none = do
  with_timestamp env (λ now.
      statement env (upsert_replay (Channel.as_str candidate.channel) (replay_row candidate now)))
  pure accepted

unfoldable pub observe_manifest : Env → ManifestReplayCandidate → Store ReplayDecision
unfolding record_manifest
observe_manifest env candidate = do
  checked ← lift (check_candidate env.parse_from_rfc3339 candidate)
  previous ← statement env (select_replay (Channel.as_str candidate.channel))
  decision ← lift (replay_check env.parse_from_rfc3339 candidate checked.0 checked.1 previous)
  record_manifest env candidate decision

unfoldable pub save_operation : Env → UpdateOperationRecord → Store (Unit {0})
save_operation env operation = do
  lift (check_operation env.parse_from_rfc3339 operation)
  statement env (
      upsert_operation operation.operation_id (record {
        target_version = operation.target_version;
        status = Status.as_str operation.status;
        updated_at = operation.updated_at;
      }))

abbrev found_operation :
    Text → Option OperationRow → Result UpdateStateError (Option UpdateOperationRecord)
found_operation operation_id none = ok none
found_operation operation_id (some row) =
    Prelude.◌>>=◌ (operation_of_row operation_id row) (λ o. ok (some o))

unfoldable pub get_operation : Env → Text → Store (Option UpdateOperationRecord)
get_operation env operation_id = do
  row ← statement env (select_operation operation_id)
  lift (found_operation operation_id row)

-- The two INSERTs, inside the transaction.
unfoldable pub insert_both : Env → VerifiedUpdateOperationRecord → ℤ → Store (Ending × Unit {0})
insert_both env operation package_size = do
  statement env (
      insert_operation operation.operation_id (record {
        target_version = operation.target_version;
        status = Status.as_str operation.status;
        updated_at = operation.updated_at;
      }))
  statement env (
      insert_verified operation.operation_id (record {
        release_id = operation.release_id;
        package_filename = operation.package_filename;
        package_sha256 = operation.package_sha256;
        package_size = package_size;
      }))
  pure (commit, tt)

unfoldable pub save_verified_operation : Env → VerifiedUpdateOperationRecord → Store (Unit {0})
unfolding insert_both
save_verified_operation env operation = do
  package_size ← lift (check_verified_operation env.parse_from_rfc3339 operation)
  transaction env (insert_both env operation package_size)

abbrev found_verified :
    Env → Text → Option JoinedRow → Result UpdateStateError (Option VerifiedUpdateOperationRecord)
found_verified env operation_id none = ok none
found_verified env operation_id (some row) =
    Prelude.◌>>=◌ (record_of_row env.parse_from_rfc3339 operation_id row) (λ o. ok (some o))

unfoldable pub get_verified_operation : Env → Text → Store (Option VerifiedUpdateOperationRecord)
get_verified_operation env operation_id = do
  lift (refuse_if (is_empty (trim operation_id)) invalid_operation_id)
  row ← statement env (select_verified (codes "verified") operation_id)
  lift (found_verified env operation_id row)

-- What the claim makes of the row that it reads back.
abbrev claimed_record :
    Env
    → Text
    → Option JoinedRow
    → Result UpdateStateError (Ending × Option VerifiedUpdateOperationRecord)
claimed_record env operation_id none = ok (rollback, none)
claimed_record env operation_id (some row) =
    Prelude.◌>>=◌ (record_of_row env.parse_from_rfc3339 operation_id row) (λ o.
      Prelude.◌>>◌
        (refuse_if (not (Status.is_installing o.status))
          (invalid_operation_status (Status.as_str o.status)))
        (ok (commit, some o)))

abbrev read_claimed : Env → Text → Bool → Store (Ending × Option VerifiedUpdateOperationRecord)
read_claimed env operation_id false = pure (rollback, none)
read_claimed env operation_id true = do
  row ← statement env (select_verified (codes "installing") operation_id)
  lift (claimed_record env operation_id row)

-- The UPDATE and the SELECT, inside the transaction.
unfoldable pub claim_body :
    Env → Text → Text → Store (Ending × Option VerifiedUpdateOperationRecord)
claim_body env operation_id updated_at = do
  one ← statement env (update_claimed updated_at operation_id)
  read_claimed env operation_id one

unfoldable pub claim_verified_operation_for_install :
    Env → Text → Text → Store (Option VerifiedUpdateOperationRecord)
unfolding claim_body
claim_verified_operation_for_install env operation_id updated_at = do
  lift (refuse_if (is_empty (trim operation_id)) invalid_operation_id)
  lift (parse_timestamp env.parse_from_rfc3339 updated_at)
  transaction env (claim_body env operation_id updated_at)
