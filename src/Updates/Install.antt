-- ===== src/Updates/Install.antt =====
-- `install_verified_update` of server/src/handlers/updates.rs.
use luminos.Prelude.{not, [], ◌∷◌, Result, ok, err, ok_or, refuse_if, map_err}
use luminos.Text.{Text, codes, trim}
use luminos.State.Types.{VerifiedUpdateOperationRecord}
use luminos.State.Db.{Env}
use luminos.State.Store.{claim_verified_operation_for_install}
use luminos.Agent.Flow.{VerifiedAgentPackage, InstallApproval, AgentFlowError, install_verified}
use luminos.Updates.Server.{
  text, Response, error_response, Site, Handler, lift, ◌>>=◌, ◌>>◌, on_store, on_agent, clock,
}
use luminos.Updates.Access.{Headers, require_admin, token_result}
use luminos.Updates.Channel.{json_response, update_state_store, update_state_error}
use luminos.Updates.Operation.{
  InstallVerifiedUpdateRequest, explicit_install_approval, verified_agent_package_from_operation,
  mark_update_operation_failed,
}
use luminos.Updates.Verify.{transport}

abbrev pub installing_response : VerifiedUpdateOperationRecord → Response
installing_response claimed = json_response 202 (
    (codes "status", text (codes "installing"))
    ∷ (codes "operation_id", text claimed.operation_id)
    ∷ (codes "version", text claimed.target_version)
    ∷ (codes "release_id", text claimed.release_id)
    ∷ (codes "package_filename", text claimed.package_filename)
    ∷ [])

abbrev pub install_failed : VerifiedUpdateOperationRecord → Response
install_failed claimed = json_response 502 (
    (codes "error", text (codes "agent_install_failed"))
    ∷ (codes "operation_id", text claimed.operation_id)
    ∷ [])

-- A refusal behind the claim first marks the operation as failed.
unfoldable pub or_failed :
    {A : Type 0} → Env → Site → VerifiedUpdateOperationRecord → Result Response A → Handler A
or_failed env site claimed (ok a) = lift (ok a)
or_failed env site claimed (err r) = do mark_update_operation_failed env site claimed; lift (err r)

abbrev pub package_answer :
    Result (Unit {0}) VerifiedAgentPackage → Result Response VerifiedAgentPackage
package_answer = map_err λ (e : Unit {0}). error_response 409 (codes "verified_operation_invalid")

abbrev pub install_answer :
    VerifiedUpdateOperationRecord → Result AgentFlowError (Unit {0}) → Result Response Response
install_answer claimed (ok done) = ok (installing_response claimed)
install_answer claimed (err e) = err (install_failed claimed)

-- What follows on the claim.
unfoldable pub install_claimed :
    Env → Site → InstallApproval → VerifiedUpdateOperationRecord → Handler Response
install_claimed env site approval claimed = do
  agent_package ←
      or_failed env site claimed (package_answer (verified_agent_package_from_operation claimed))
  token ← or_failed env site claimed (token_result site)
  result ← on_agent (install_verified site.agent (transport token) agent_package approval)
  or_failed env site claimed (install_answer claimed result)

abbrev pub approval_answer : Result (Unit {0}) InstallApproval → Result Response InstallApproval
approval_answer = map_err λ (e : Unit {0}). error_response 400 (codes "install_approval_required")

abbrev pub unavailable : Response
unavailable = error_response 409 (codes "verified_operation_unavailable")

-- From the claim on.
unfoldable pub claim_and_install : Env → Site → InstallApproval → Text → Text → Handler Response
claim_and_install env site approval operation_id at = do
  found ← on_store (claim_verified_operation_for_install env operation_id at) update_state_error
  claimed ← lift (ok_or unavailable found)
  install_claimed env site approval claimed

unfoldable pub install_verified_update :
    Env → Site → Headers → InstallVerifiedUpdateRequest → Handler Response
install_verified_update env site headers request = do
  require_admin site headers
  approval ← lift (approval_answer (explicit_install_approval request))
  lift (
      refuse_if (not (site.is_uuid (trim request.operation_id)))
        (error_response 400 (codes "invalid_operation_id")))
  update_state_store env
  at ← clock site
  claim_and_install env site approval (trim request.operation_id) at
