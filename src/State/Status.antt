-- ===== src/State/Status.antt =====
-- `impl UpdateOperationStatus` of server/src/update_state.rs: the stored names of the statuses.
use luminos.Prelude.{Bool, true, false, Result, ok, err, if◌then◌else◌, ◌≡◌, refl}
use luminos.Text.{Text, codes, text_eq}
use luminos.State.Types.{
  UpdateOperationStatus, downloading, verifying, verified, installing, succeeded, failed,
  UpdateStateError, invalid_operation_status,
}

unfoldable pub as_str : UpdateOperationStatus → Text
as_str downloading = codes "downloading"
as_str verifying = codes "verifying"
as_str verified = codes "verified"
as_str installing = codes "installing"
as_str succeeded = codes "succeeded"
as_str failed = codes "failed"

unfoldable pub from_db : Text → Result UpdateStateError UpdateOperationStatus
from_db value =
    if text_eq value (codes "downloading")
    then ok downloading
    else if text_eq value (codes "verifying")
    then ok verifying
    else if text_eq value (codes "verified")
    then ok verified
    else if text_eq value (codes "installing")
    then ok installing
    else if text_eq value (codes "succeeded")
    then ok succeeded
    else if text_eq value (codes "failed")
    then ok failed
    else err (invalid_operation_status value)

abbrev pub is_verified : UpdateOperationStatus → Bool
is_verified verified = true
is_verified _ = false

abbrev pub is_installing : UpdateOperationStatus → Bool
is_installing installing = true
is_installing _ = false

pub from_db-as_str : (s : UpdateOperationStatus) → from_db (as_str s) ≡ ok s
unfolding from_db as_str text_eq
from_db-as_str downloading = refl
from_db-as_str _ = refl
