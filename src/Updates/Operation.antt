-- ===== src/Updates/Operation.antt =====
-- From a verified package to an operation record and back, in server/src/handlers/updates.rs.
use luminos.Prelude.{Bool, ◌||◌, not, [], ◌∷◌, Result, ok, ◌>>◌, refuse_if, ◌==◌}
use luminos.Text.{Text, codes, text_eq, is_empty, ends_with}
use luminos.State.Types.{verified, failed, UpdateOperationRecord, VerifiedUpdateOperationRecord}
use luminos.State.Status
use luminos.State.Validate.{file_name}
use luminos.State.Db.{Env}
use luminos.State.Store.{save_operation}
use luminos.Distribution.Policy.{is_text}
use luminos.Agent.Flow.{VerifiedAgentPackage, InstallApproval, valid_sha256}
use luminos.Updates.Server.{
  text, number, Response, Site, Handler, ◌>>=◌ as then, clock, ignore_store,
}
use luminos.Updates.Target.{UpdateTarget}
use luminos.Updates.Channel.{json_response}

pub record InstallVerifiedUpdateRequest : Type 0 where
  pub operation_id : Text
  pub approved : Bool

-- The text of the error is left out, here and below.
unfoldable pub explicit_install_approval :
    InstallVerifiedUpdateRequest → Result (Unit {0}) InstallApproval
explicit_install_approval request =
    refuse_if (not request.approved) tt >> ok InstallApproval.approved

unfoldable pub verified_operation_from_agent :
    (Text → Bool)
    → Text
    → UpdateTarget
    → VerifiedAgentPackage
    → Text
    → Result (Unit {0}) VerifiedUpdateOperationRecord
verified_operation_from_agent is_uuid operation_id target agent_package updated_at = do
  refuse_if (not (is_uuid operation_id)) tt
  refuse_if
      (not (text_eq agent_package.version target.version)
        || not (text_eq agent_package.identity.filename target.package_filename)
        || agent_package.identity.size == 0
        || not (valid_sha256 agent_package.identity.sha256))
      tt
  ok (record {
    operation_id = operation_id;
    target_version = target.version;
    release_id = target.release_id;
    package_filename = agent_package.identity.filename;
    package_sha256 = agent_package.identity.sha256;
    package_size = agent_package.identity.size;
    status = verified;
    updated_at = updated_at;
  })

unfoldable pub verified_agent_package_from_operation :
    VerifiedUpdateOperationRecord → Result (Unit {0}) VerifiedAgentPackage
verified_agent_package_from_operation operation = do
  refuse_if (not (Status.is_installing operation.status)) tt
  refuse_if
      (is_empty operation.package_filename
        || not (is_text (file_name operation.package_filename) operation.package_filename)
        || not (ends_with operation.package_filename (codes ".popkg"))
        || operation.package_size == 0
        || not (valid_sha256 operation.package_sha256))
      tt
  ok (record {
    identity = record {
      filename = operation.package_filename;
      sha256 = operation.package_sha256;
      size = operation.package_size;
    };
    version = operation.target_version;
  })

abbrev pub verified_response : UpdateTarget → VerifiedAgentPackage → Text → Response
verified_response target agent_package operation_id = json_response 200 (
    (codes "status", text (codes "verified"))
    ∷ (codes "operation_id", text operation_id)
    ∷ (codes "version", text agent_package.version)
    ∷ (codes "release_id", text target.release_id)
    ∷ (codes "package_filename", text agent_package.identity.filename)
    ∷ (codes "size", number agent_package.identity.size)
    ∷ (codes "sha256", text agent_package.identity.sha256)
    ∷ [])

abbrev pub failed_operation : VerifiedUpdateOperationRecord → Text → UpdateOperationRecord
failed_operation operation at = record {
  operation_id = operation.operation_id;
  target_version = operation.target_version;
  status = failed;
  updated_at = at;
}

unfoldable pub mark_update_operation_failed :
    Env → Site → VerifiedUpdateOperationRecord → Handler (Unit {0})
mark_update_operation_failed env site operation =
    then (clock site) (λ at. ignore_store (save_operation env (failed_operation operation at)))
