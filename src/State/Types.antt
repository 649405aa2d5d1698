-- ===== src/State/Types.antt =====
-- The enums and structs of server/src/update_state.rs, and the names under which they are stored.
use luminos.Prelude.{ℕ}
use luminos.Text.{Text}

-- An `i64`; `negsuc n` is -(n + 1).
pub data ℤ : Type 0 where
  pos : ℕ → ℤ
  negsuc : ℕ → ℤ

pub data UpdateChannel : Type 0 where
  stable beta disabled : UpdateChannel

pub record ManifestReplayCandidate : Type 0 where
  pub channel : UpdateChannel
  pub version : Text
  pub published_at : Text
  pub manifest_sha256 : Text

pub data ReplayDecision : Type 0 where
  accepted already_seen rejected_regression : ReplayDecision

pub data UpdateOperationStatus : Type 0 where
  downloading verifying verified installing succeeded failed : UpdateOperationStatus

pub record UpdateOperationRecord : Type 0 where
  pub operation_id : Text
  pub target_version : Text
  pub status : UpdateOperationStatus
  pub updated_at : Text

pub record VerifiedUpdateOperationRecord : Type 0 where
  pub operation_id : Text
  pub target_version : Text
  pub release_id : Text
  pub package_filename : Text
  pub package_sha256 : Text
  pub package_size : ℕ
  pub status : UpdateOperationStatus
  pub updated_at : Text

-- How a statement can fail: the database cannot be reached or written, or a constraint of the
-- schema refuses the row.
pub data SqlxError : Type 0 where
  unavailable constraint_violated : SqlxError

pub data UpdateStateError : Type 0 where
  sqlx : SqlxError → UpdateStateError
  invalid_channel : Text → UpdateStateError
  invalid_operation_status : Text → UpdateStateError
  invalid_version : Text → UpdateStateError
  invalid_timestamp : Text → UpdateStateError
  invalid_digest : UpdateStateError
  invalid_operation_id : UpdateStateError
  invalid_release_id : UpdateStateError
  invalid_package_filename : UpdateStateError
  invalid_package_size : UpdateStateError

pub UpdateChannel-discrete : Discrete UpdateChannel
UpdateChannel-discrete = hlevel
