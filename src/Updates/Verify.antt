-- ===== src/Updates/Verify.antt =====
-- `verify_staged_update` of server/src/handlers/updates.rs.
use luminos.Prelude.{some, Result, ok, map_err}
use luminos.Text.{Text, codes}
use luminos.State.Types.{VerifiedUpdateOperationRecord}
use luminos.State.Db.{Env}
use luminos.State.Store.{save_verified_operation}
use luminos.Discovery.Types.{ValidatedManifest}
use luminos.Agent.Transport.{AgentTransport, new}
use luminos.Agent.Flow.{StagedPackage, VerifiedAgentPackage, AgentFlowError, upload_and_verify}
use luminos.Updates.Server.{
  Response, error_response, Site, Handler, lift, ◌>>=◌, ◌>>◌, on_store, on_agent, clock,
}
use luminos.Updates.Access.{Headers, require_admin, read_update_token}
use luminos.Updates.Proxy.{agent_base_url}
use luminos.Updates.Target.{UpdateTarget, current_manifest}
use luminos.Updates.Staged.{StagedError, staged_package_from_signed_manifest}
use luminos.Updates.Operation.{verified_operation_from_agent, verified_response}

abbrev pub transport : Text → AgentTransport
transport token = new agent_base_url (some token)

-- The staged package, read again.
unfoldable pub staged_again :
    Site → UpdateTarget → ValidatedManifest → Result Response StagedPackage
staged_again site target manifest =
    map_err (λ (e : StagedError). error_response 409 (codes "invalid_staged_package"))
      (staged_package_from_signed_manifest site.fs site.crates.sha256_hex target manifest
        site.runtime_directory)

abbrev pub verification_answer :
    Result AgentFlowError VerifiedAgentPackage → Result Response VerifiedAgentPackage
verification_answer =
    map_err λ (e : AgentFlowError). error_response 502 (codes "agent_package_verification_failed")

abbrev pub operation_answer :
    Result (Unit {0}) VerifiedUpdateOperationRecord → Result Response VerifiedUpdateOperationRecord
operation_answer = map_err λ (e : Unit {0}). error_response 500 (codes "verified_operation_invalid")

-- What follows on the Agent's verification.
unfoldable pub record_verified : Env → Site → UpdateTarget → VerifiedAgentPackage → Handler Response
record_verified env site target agent_package = do
  at ← clock site
  operation ← lift (
      operation_answer
        (verified_operation_from_agent site.is_uuid site.new_uuid target agent_package at))
  on_store (save_verified_operation env operation)
      (error_response 500 (codes "verified_operation_persist_failed"))
  lift (ok (verified_response target agent_package site.new_uuid))

unfoldable pub verify_manifest : Env → Site → UpdateTarget → ValidatedManifest → Handler Response
verify_manifest env site target manifest = do
  staged ← lift (staged_again site target manifest)
  token ← read_update_token site
  result ← on_agent (upload_and_verify site.agent (transport token) staged manifest.version)
  agent_package ← lift (verification_answer result)
  record_verified env site target agent_package

unfoldable pub verify_staged_update : Env → Site → Headers → UpdateTarget → Handler Response
verify_staged_update env site headers target = do
  require_admin site headers
  manifest ← current_manifest env site target
  verify_manifest env site target manifest
